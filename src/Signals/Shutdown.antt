-- ===== src/Signals/Shutdown.antt =====
-- crates/signals/src/application/workers/signal_engine.rs: how the engine's tasks are watched, and what
-- it answers once they are drained. A task's id is its rank among those spawned.
use Prim.Native.Nat.{Ordering}
use Prim.Native.String.{String, compare}
use yog_sothoth.Prelude.{
  ℕ, suc, ◌≡◌, refl, ◌∙◌, Bool, true, false, ◌||◌, Option, none, some, List, [], ◌∷◌, ◌++◌, ◌==◌,
  if◌then◌else◌, Bool-cases, inl, inr,
}
use yog_sothoth.Prelude.Map.{Map, remove}
use yog_sothoth.Domain.Protocols.{Result, ok, err}
pub mod Names
pub mod Answer

-- What joining a task gives, with `TaskEnd` of crates/bootstrap/src/shutdown.rs.
pub data Joined : Type 0 where
  finished : ℕ → Joined
  panicked : ℕ → String → Joined
  cancelled : ℕ → Joined

-- How the first loop ends without a panic.
pub data Ending : Type 0 where
  shut_down : Ending
  none_left : Ending

unfoldable pub spawn_all : ℕ → List String → Map String
spawn_all next [] = []
spawn_all next (name ∷ names) = (next, name) ∷ spawn_all (suc next) names

-- A panic is answered by its text, that of `DetectorPanicked`.
unfoldable pub settle : Joined → Map String → Option String × Map String
settle (finished id) running = (none, remove id running)
settle (panicked id e) running = (some e, remove id running)
settle (cancelled id) running = (none, remove id running)

abbrev pub or_else : Option String → Option String → Option String
or_else none b = b
or_else (some a) b = some a

abbrev pub is_before : String → String → Bool
is_before s t = elim (compare s t) [ Ordering.gt ↦ false | _ ↦ true ]

unfoldable pub insert_name : String → List String → List String
insert_name s [] = s ∷ []
insert_name s (t ∷ ts) =
    let rest = insert_name s ts in if is_before s t then s ∷ t ∷ ts else t ∷ rest

-- `into_values` and `sort_unstable`.
unfoldable pub names : Map String → List String
unfolding insert_name
names [] = []
names ((id, name) ∷ m) = insert_name name (names m)

unfoldable pub answer : Map String → Option String → Result String (List String)
answer running none = ok (names running)
answer running (some panic) = err panic

-- The second loop, on what joins within the grace.
unfoldable pub drain : Map String → Option String → List Joined → Result String (List String)
unfolding settle answer
drain running first [] = answer running first
drain running first (j ∷ js) = drain (settle j running).1 (or_else first (settle j running).0) js

-- The first loop, on what joins before it ends; after a panic the rest is drained.
unfoldable pub watch : Map String → List Joined → Ending → List Joined → Result String (List String)
unfolding drain settle
watch running [] shut_down after = drain running none after
watch running [] none_left after = ok []
watch running (j ∷ js) ending after = elim (settle j running).0 [
  | none ↦ watch (settle j running).1 js ending after
  | some panic ↦ drain (settle j running).1 (some panic) (js ++ after)
]

unfoldable pub run : List String → List Joined → Ending → List Joined → Result String (List String)
unfolding watch spawn_all
run detectors before ending after = watch (spawn_all 0 detectors) before ending after
