-- ===== src/Grpc/Listener/Streaks.antt =====
-- What the loop of attempts of crates/indexer/src/infra/grpc/listener.rs does with a row of failures.
use yog_sothoth.Prelude.{
  ℕ, zero, suc, ◌+◌, ◌*◌, ◌^◌, ◌≤◌, ◌<◌, min, max, ◌≡◌, ◌∙◌, ap, refl, Bool-cases, true, false,
  Option, none, some, List, [], ◌∷◌, arith, leb, if◌then◌else◌, length, All, ◌⊎◌, inl, inr,
}
use native.Mathlib.Nat.{pow-succ'}
use Prim.Native.String.{String}
use yog_sothoth.Domain.Protocols.{ok, err}
use yog_sothoth.Grpc.Listener.Budget.{
  RetryBudget, Verdict, Next, retry, stop, GrpcListenerError, retries_exhausted, settle, charge,
  churn, max_backoff_secs,
}
use yog_sothoth.Grpc.Listener.Budget
use yog_sothoth.Grpc.Listener.{Ending, verdict, Round, Outcome, attempts, proceed, waited, returned}

-- `n` failures in a row doubled the backoff that many times, up to the ceiling.
abbrev pub backoff_after : ℕ → ℕ
backoff_after n = min (2 ^ n) max_backoff_secs

-- The budget after `n` failures in a row.
abbrev pub streak : ℕ → ℕ → RetryBudget
streak n m = record { attempt = n; backoff = backoff_after n; max_attempts = m }

pow_add_one : (n : ℕ) → 2 ^ (n + 1) ≡ 2 * 2 ^ n
pow_add_one n = ap (λ k. 2 ^ k) (omega arith) ∙ pow-succ' 2 n

double : (n : ℕ) → min (backoff_after n * 2) max_backoff_secs ≡ backoff_after (n + 1)
double n = rw (pow_add_one n) (omega arith)

-- A verdict that is charged for, and its error.
abbrev pub charged_error : Verdict → Option String
charged_error Verdict.shutdown_requested = none
charged_error Verdict.consumer_gone = none
charged_error (Verdict.delivered e) = none
charged_error (Verdict.server_failed e) = some e
charged_error (Verdict.unanswered e) = some e

settle_retries :
    (n m : ℕ) (v : Verdict) (e : String)
    → charged_error v ≡ some e
    → n + 1 < m
    → settle v (streak n m) ≡ (streak (n + 1) m, retry (backoff_after n))
unfolding settle charge
settle_retries n m v e c lt = ground (arith, double n)

settle_stops :
    (n m : ℕ) (v : Verdict) (e : String)
    → charged_error v ≡ some e
    → m ≤ n + 1
    → settle v (streak n m)
      ≡ (record (streak n m) { attempt = n + 1 }, stop (err (retries_exhausted (n + 1) e)))
unfolding settle charge
settle_stops n m v e c le = ground arith

-- A round that is attempted and whose attempt is charged for, with its error.
abbrev pub Fails : Round → String → Type 0
Fails r e =
    (r.is_cancelled ≡ false)
    × ((ending : Ending) × (r.attempted ≡ ok ending) × (charged_error (verdict ending) ≡ some e))

-- Every round fails; the last of them with the error.
abbrev pub AllFail : List Round → String → Type 0
AllFail [] last = Unit
AllFail (r ∷ []) last = Fails r last
AllFail (r ∷ q ∷ rs) last = ((e : String) × Fails r e) × AllFail (q ∷ rs) last

-- The waits between as many failures, the first of which follows `n` in a row.
abbrev pub backoffs : ℕ → List Round → List ℕ
backoffs n [] = []
backoffs n (r ∷ []) = []
backoffs n (r ∷ q ∷ rs) = backoff_after n ∷ backoffs (n + 1) (q ∷ rs)

settle-streak :
    (n m : ℕ) (v : Verdict) (e : String) (rest : RetryBudget → Outcome)
    → charged_error v ≡ some e
    → proceed rest (settle v (streak n m)) ≡ (
        if leb m (n + 1)
        then returned (err (retries_exhausted (n + 1) e))
        else waited (backoff_after n) (rest (streak (n + 1) m)))
unfolding settle charge
settle-streak n m v e rest c = elim (Bool-cases (leb m (n + 1))) [
  | inl le ↦ rw (le, settle_stops n m v e c (ground arith)) refl
  | inr gt ↦ rw (gt, settle_retries n m v e c (ground arith)) refl
]

attempts-Fails :
    (n m : ℕ) (r : Round) (rs : List Round) (e : String)
    → Fails r e
    → attempts (r ∷ rs) (streak n m) ≡ (
        if leb m (n + 1)
        then returned (err (retries_exhausted (n + 1) e))
        else waited (backoff_after n) (attempts rs (streak (n + 1) m)))
unfolding attempts
attempts-Fails n m r rs e (live, (ending, a, c)) =
    rw (live, a) (settle-streak n m (verdict ending) e (attempts rs) c)

leb-true : (a b : ℕ) → a ≤ b → leb a b ≡ true
leb-true a b h = ground arith

leb-false : (a b : ℕ) → b < a → leb a b ≡ false
leb-false a b h = ground arith

-- After `n` failures in a row, as many more as the budget has left exhaust it.
attempts_exhausted :
    (n m : ℕ) (rs : List Round) (last : String)
    → AllFail rs last
    → 1 ≤ length rs
    → n + length rs ≡ max (n + 1) m
    → attempts rs (streak n m) ≡ record {
      waits = backoffs n rs;
      result = some (err (retries_exhausted (n + length rs) last));
    }
attempts_exhausted n m [] last f le e = elim le [ ]
attempts_exhausted n m (r ∷ []) last f le e =
    attempts-Fails n m r [] last f ∙ rw (leb-true m (n + 1) (omega arith)) refl
attempts_exhausted n m (r ∷ q ∷ rs) last ((d, f), fs) le e =
    attempts-Fails n m r (q ∷ rs) d f
    ∙ rw
        (
          leb-false m (n + 1) (omega arith),
          attempts_exhausted (n + 1) m (q ∷ rs) last fs (omega arith) (omega arith),
        )
        (ap
          (λ k. record {
            waits = backoff_after n ∷ backoffs (n + 1) (q ∷ rs);
            result = some (err (retries_exhausted k last));
          })
          (omega arith))

-- When every attempt fails, the loop that starts afresh makes exactly max_attempts of them, or one
-- if that is zero, and returns their number and the last error; between them it has waited a second,
-- and then twice as long each time, up to a minute.
pub attempts_give_up :
    (m : ℕ) (rs : List Round) (last : String)
    → AllFail rs last
    → length rs ≡ max 1 m
    → attempts rs (Budget.new m)
      ≡ record { waits = backoffs 0 rs; result = some (err (retries_exhausted (length rs) last)) }
unfolding Budget.new
attempts_give_up m rs last f e =
    attempts_exhausted 0 m rs last f (omega arith) (omega arith)
    ∙ ap (λ k. record { waits = backoffs 0 rs; result = some (err (retries_exhausted k last)) })
        (omega arith)

backoff_bounded : (n : ℕ) → (1 ≤ backoff_after n) × (backoff_after n ≤ max_backoff_secs)
backoff_bounded zero = (omega arith, omega arith)
backoff_bounded (suc n) =
    let (lo, hi) = backoff_bounded n in (omega (arith, pow-succ' 2 n, lo), omega arith)

-- A round whose attempt delivered before it ended.
abbrev pub Delivers : Round → Type 0
Delivers r =
    (r.is_cancelled ≡ false)
    × ((ending : Ending) × ((o : Option String) × (r.attempted ≡ ok ending)
          × (verdict ending ≡ Verdict.delivered o)))

-- After `n` failures in a row, no row of failures gets as long as `m`, and nothing else stops the
-- loop.
abbrev pub Tolerated : ℕ → ℕ → List Round → Type 0
Tolerated n m [] = Unit
Tolerated n m (r ∷ rs) =
    (((e : String) × Fails r e) × (n + 1 < m) × Tolerated (n + 1) m rs)
    ⊎ (Delivers r × Tolerated 0 m rs)

attempts-Delivers :
    (n m : ℕ) (r : Round) (rs : List Round)
    → Delivers r
    → attempts (r ∷ rs) (streak n m) ≡ waited 1 (attempts rs (streak 0 m))
unfolding attempts settle churn
attempts-Delivers n m r rs (live, (ending, (o, a, d))) = rw (live, a, d) refl

-- The loop waits before each round.
pub record Waiting (rs : List Round) (o : Outcome) : Type 0 where
  pub running : o.result ≡ none
  pub each : length o.waits ≡ length rs
  pub bounded : All (λ w. (1 ≤ w) × (w ≤ max_backoff_secs)) o.waits

-- After n failures in a row, while every row of failures, the one begun included, is shorter than
-- the bound, and the attempts between them deliver, the loop does not return: it waits after each
-- round, a second at least and a minute at most.
pub attempts-Waiting :
    (n m : ℕ) (rs : List Round) → Tolerated n m rs → Waiting rs (attempts rs (streak n m))
attempts-Waiting n m [] t = unfold attempts in record { running = refl; each = refl; bounded = tt }
attempts-Waiting n m (r ∷ rs) (inl ((e, f), lt, t)) =
    let w = attempts-Waiting (n + 1) m rs t in
    rw (attempts-Fails n m r rs e f, leb-false m (n + 1) lt)
      (record {
        running = w.running;
        each = ap suc w.each;
        bounded = (backoff_bounded n, w.bounded);
      })
attempts-Waiting n m (r ∷ rs) (inr (d, t)) =
    let w = attempts-Waiting 0 m rs t in
    rw (attempts-Delivers n m r rs d) (record {
      running = w.running;
      each = ap suc w.each;
      bounded = ((omega arith, omega arith), w.bounded);
    })
