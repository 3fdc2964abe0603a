-- ===== src/Signals/Shutdown/Answer.antt =====
-- The answer of crates/signals/src/application/workers/signal_engine.rs at a shutdown.
use Prim.Native.String.{String}
use mathlib.Core.List.{Perm}
use yog_sothoth.Prelude.{
  ℕ, suc, ◌<◌, ◌≡◌, refl, sym, ap, subst, Bool, Bool-cases, inl, inr, false, ◌||◌, Option, none,
  some, List, [], ◌∷◌, ◌++◌, ◌==◌, map, if◌then◌else◌, arith,
}
use yog_sothoth.Prelude.Map.{Map, remove, SortedFrom, SortedFrom-remove}
use yog_sothoth.Domain.Protocols.{Result, ok, err}
use yog_sothoth.Signals.Shutdown.{
  Joined, finished, panicked, cancelled, shut_down, spawn_all, settle, or_else, answer, drain,
  watch, run, names,
}
use yog_sothoth.Signals.Shutdown.Names.{IsAscending, names-IsAscending, names-Perm}

-- The first panic of those joined.
abbrev pub first_panic : List Joined → Option String
first_panic [] = none
first_panic (finished id ∷ js) = first_panic js
first_panic (panicked id e ∷ js) = some e
first_panic (cancelled id ∷ js) = first_panic js

abbrev pub id_of : Joined → ℕ
id_of (finished id) = id
id_of (panicked id e) = id
id_of (cancelled id) = id

abbrev pub joins : ℕ → List Joined → Bool
joins k [] = false
joins k (j ∷ js) = (id_of j == k) || joins k js

abbrev strike_all : Map String → List Joined → Map String
strike_all running [] = running
strike_all running (j ∷ js) = strike_all (remove (id_of j) running) js

drain-answer :
    (running : Map String) (first : Option String) (js : List Joined)
    → drain running first js ≡ answer (strike_all running js) (or_else first (first_panic js))
unfolding drain settle
drain-answer running none [] = refl
drain-answer running (some p) [] = refl
drain-answer running none (finished id ∷ js) = drain-answer (remove id running) none js
drain-answer running none (panicked id e ∷ js) = drain-answer (remove id running) (some e) js
drain-answer running none (cancelled id ∷ js) = drain-answer (remove id running) none js
drain-answer running (some p) (finished id ∷ js) = drain-answer (remove id running) (some p) js
drain-answer running (some p) (panicked id e ∷ js) = drain-answer (remove id running) (some p) js
drain-answer running (some p) (cancelled id ∷ js) = drain-answer (remove id running) (some p) js

watch-answer :
    (running : Map String) (before after : List Joined)
    → watch running before shut_down after
      ≡ answer (strike_all running (before ++ after)) (first_panic (before ++ after))
unfolding watch settle
watch-answer running [] after = drain-answer running none after
watch-answer running (finished id ∷ js) after = watch-answer (remove id running) js after
watch-answer running (panicked id e ∷ js) after =
    drain-answer (remove id running) (some e) (js ++ after)
watch-answer running (cancelled id ∷ js) after = watch-answer (remove id running) js after

remove_below : (k n : ℕ) (m : Map String) → k < n → SortedFrom n m → remove k m ≡ m
unfolding remove
remove_below k n [] h sorted = refl
remove_below k n ((i, w) ∷ m) h sorted = ground (arith, remove_below k (suc i) m)

flipped : (a b : ℕ) → (a == b) ≡ (b == a)
flipped a b = ground arith

strike_all-nil : (js : List Joined) → strike_all [] js ≡ []
unfolding remove
strike_all-nil [] = refl
strike_all-nil (j ∷ js) = strike_all-nil js

-- The first task is struck off exactly if it joins.
strike_all-cons :
    (k : ℕ) (name : String) (m : Map String) (js : List Joined)
    → SortedFrom (suc k) m
    → strike_all ((k, name) ∷ m) js
      ≡ (if joins k js then strike_all m js else (k, name) ∷ strike_all m js)
unfolding remove
strike_all-cons k name m [] sorted = refl
strike_all-cons k name m (j ∷ js) sorted = elim (Bool-cases (id_of j == k)) [
  | inl joined ↦
      let absent : remove (id_of j) m ≡ m =
        remove_below (id_of j) (suc k) m (ground (arith, joined)) sorted in
      rw (flipped k (id_of j), joined) (ap (λ n. strike_all n js) (sym absent))
  | inr apart ↦
      rw (flipped k (id_of j), apart)
        (strike_all-cons k name (remove (id_of j) m) js
          (SortedFrom-remove (suc k) (id_of j) m sorted))
]

spawn_all-SortedFrom : (next : ℕ) (names : List String) → SortedFrom next (spawn_all next names)
unfolding spawn_all
spawn_all-SortedFrom next [] = tt
spawn_all-SortedFrom next (name ∷ names) = (omega arith, spawn_all-SortedFrom (suc next) names)

-- The tasks, from a rank on, that do not join.
abbrev pub unjoined : ℕ → List String → List Joined → List String
unjoined k [] js = []
unjoined k (d ∷ ds) js = let rest = unjoined (suc k) ds js in if joins k js then rest else d ∷ rest

strike_all-unjoined :
    (k : ℕ) (ds : List String) (js : List Joined)
    → map (λ e. e.1) (strike_all (spawn_all k ds) js) ≡ unjoined k ds js
unfolding spawn_all
strike_all-unjoined k [] js = ap (map (λ e. e.1)) (strike_all-nil js)
strike_all-unjoined k (d ∷ ds) js =
    let rest = strike_all-unjoined (suc k) ds js in
    let first = strike_all-cons k d (spawn_all (suc k) ds) js (spawn_all-SortedFrom (suc k) ds) in
    elim (Bool-cases (joins k js)) [
      | inl gone ↦ rw (first, gone) rest
      | inr left ↦ rw (first, left) (ap (λ ns. d ∷ ns) rest)
    ]

-- What is answered: the panic, or else the tasks left, sorted.
abbrev pub Answers : Option String → List String → Result String (List String) → Type 0
Answers (some panic) left r = r ≡ err panic
Answers none left r = (ns : List String) × (r ≡ ok ns) × IsAscending ns × Perm ns left

answer-Answers :
    (m : Map String) (o : Option String) (left : List String)
    → map (λ e. e.1) m ≡ left
    → Answers o left (answer m o)
unfolding answer
answer-Answers m (some panic) left e = refl
answer-Answers m none left e =
    (names m, refl, names-IsAscending m, subst (Perm (names m)) e (names-Perm m))

-- Whatever joins before a requested stop and within the grace, the engine answers the first panic
-- among all of that, and without one the names of the tasks spawned that did not join, each as
-- often as there are such tasks, in ascending order.
pub run-answer :
    (detectors : List String) (before after : List Joined)
    → Answers
        (first_panic (before ++ after))
        (unjoined 0 detectors (before ++ after))
        (run detectors before shut_down after)
unfolding run
run-answer detectors before after =
    let js = before ++ after in
    subst (Answers (first_panic js) (unjoined 0 detectors js))
      (sym (watch-answer (spawn_all 0 detectors) before after))
      (answer-Answers (strike_all (spawn_all 0 detectors) js) (first_panic js)
        (unjoined 0 detectors js) (strike_all-unjoined 0 detectors js))
