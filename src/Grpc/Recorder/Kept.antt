-- ===== src/Grpc/Recorder/Kept.antt =====
-- The sessions that crates/indexer/src/infra/grpc/listener/slots_recorder.rs forgets.
use yog_sothoth.Prelude.{
  ℕ, ◌≡◌, ◌≢◌, inl, inr, refl, subst, Bool, true, Bool-cases, ◌&&◌, none, List, [], ◌∷◌, ◌==◌,
  retain, All, All-weaken, All-retain_sub, arith, ℕ_discrete,
}
use yog_sothoth.Prelude.Map.{Map, get, insert, remove}
use mathlib.Core.List.{Mem, mem-cons_of_mem, mem-cons_self}
use yog_sothoth.Grpc.Buffer.Known.{Instant}
use yog_sothoth.Grpc.Session.Span.{ReceivedSpan}
use yog_sothoth.Grpc.Ranges.{RangeToRecord, RangesToRecord, ObservedSlots, rows, forget}
use yog_sothoth.Grpc.Recorder.{
  same_span, is_written, record_rows, changed, write_changed, finished, forget_all, write,
}

same_span_eq : (a b : ReceivedSpan) → same_span a b ≡ true → a ≡ b
same_span_eq a b e = ground arith

==→eq : (a b : ℕ) → (a == b) ≡ true → a ≡ b
==→eq a b e = ground arith

get-remove_other : {V : Type 0} (k j : ℕ) (m : Map V) → k ≢ j → get j (remove k m) ≡ get j m
unfolding get remove
get-remove_other k j [] n = refl
get-remove_other k j ((i, w) ∷ m) n = ground (arith, get-remove_other k j m)

pub and_left : (a b : Bool) → (a && b) ≡ true → a ≡ true
and_left a b e = ground arith

pub and_right : (a b : Bool) → (a && b) ≡ true → b ≡ true
and_right a b e = ground arith

All-retain_both :
    {A : Type 0} (P : A → Type 0) (p : A → Bool) (xs : List A)
    → All P xs
    → All (λ a. P a × (p a ≡ true)) (retain p xs)
All-retain_both P p [] h = tt
All-retain_both P p (x ∷ xs) h = elim (Bool-cases (p x)) [
  | inl e ↦ rw e ((h.0, e), All-retain_both P p xs h.1)
  | inr e ↦ rw e (All-retain_both P p xs h.1)
]

members : {A : Type 0} (xs : List A) → All (λ x. Mem x xs) xs
members [] = tt
members (x ∷ xs) = (mem-cons_self, All-weaken _ _ (λ a h. mem-cons_of_mem x h) xs (members xs))

module _ (Stored : Instant → ReceivedSpan → Type 0) where
  -- Every span that is marked as written was stored.
  abbrev pub AllStored : Map ReceivedSpan → Type 0
  AllStored = All (λ e. Stored e.0 e.1)

  -- A range every row of which the repository takes counts as stored.
  abbrev pub Stores : (ObservedSlots → Bool) → List (Instant × RangeToRecord) → Type 0
  Stores stored = All (λ e. record_rows stored (rows e.1 e.0) ≡ true → Stored e.0 e.1.span)

  AllStored-insert :
      (session : Instant) (span : ReceivedSpan) (m : Map ReceivedSpan)
      → Stored session span
      → AllStored m
      → AllStored (insert session span m)
  unfolding insert
  AllStored-insert session span [] s h = (s, tt)
  AllStored-insert session span (e ∷ m) s h = ground (arith, AllStored-insert session span m)

  AllStored-remove :
      (session : Instant) (m : Map ReceivedSpan) → AllStored m → AllStored (remove session m)
  unfolding remove
  AllStored-remove session [] h = tt
  AllStored-remove session (e ∷ m) h = ground (arith, AllStored-remove session m)

  get-Stored :
      (session : Instant) (span : ReceivedSpan) (m : Map ReceivedSpan)
      → AllStored m
      → is_written m session span ≡ true
      → Stored session span
  unfolding get
  get-Stored session span [] h e = ground arith
  get-Stored session span ((k, w) ∷ m) h e = elim (Bool-cases (k == session)) [
    | inl y ↦
        subst (λ n. Stored n span) (==→eq k session y)
          (subst (Stored k) (same_span_eq w span (rw (is_written, y) at e)) h.0)
    | inr n ↦ get-Stored session span m h.1 (rw (is_written, n) at e)
  ]

  write_changed-AllStored :
      (stored : ObservedSlots → Bool) (due : List (Instant × RangeToRecord)) (m : Map ReceivedSpan)
      → Stores stored due
      → AllStored m
      → AllStored (write_changed stored due m)
  unfolding write_changed
  write_changed-AllStored stored [] m s h = h
  write_changed-AllStored stored (e ∷ due) m s h =
      elim (Bool-cases (record_rows stored (rows e.1 e.0))) [
        | inl y ↦ rw y (
            write_changed-AllStored stored due (insert e.0 e.1.span m) s.1
              (AllStored-insert e.0 e.1.span m (s.0 y) h))
        | inr n ↦ rw n (write_changed-AllStored stored due m s.1 h)
      ]

  forget_all-AllStored :
      (xs : List (Instant × RangeToRecord)) (m : Map ReceivedSpan) (ranges : RangesToRecord)
      → AllStored m
      → AllStored (forget_all xs m ranges).0
  unfolding forget_all
  forget_all-AllStored [] m ranges h = h
  forget_all-AllStored (x ∷ xs) m ranges h =
      forget_all-AllStored xs (remove x.0 m) (forget x.0 ranges) (AllStored-remove x.0 m h)

  -- An entry that was due, is over, and is stored.
  abbrev Done : List (Instant × RangeToRecord) → Instant × RangeToRecord → Type 0
  Done due e = Mem e due × (e.1.ended ≡ true) × Stored e.0 e.1.span

  forget_all-Done :
      (due xs : List (Instant × RangeToRecord)) (m : Map ReceivedSpan) (ranges : RangesToRecord)
      (session : Instant)
      → All (Done due) xs
      → get session ranges ≢ none
      → get session (forget_all xs m ranges).1 ≡ none
      → (range : RangeToRecord) × Done due (session, range)
  unfolding forget_all forget
  forget_all-Done due [] m ranges session d ne e = absurd (ne e)
  forget_all-Done due ((k, range) ∷ xs) m ranges session d ne e = elim (ℕ_discrete k session) [
    | yes y ↦ (range, subst (λ n. Done due (n, range)) y d.0)
    | no n ↦
        forget_all-Done due xs (remove k m) (remove k ranges) session d.1
          (rw (get-remove_other k session ranges n) ne) e
  ]

  pub write-AllStored :
      (stored : ObservedSlots → Bool) (due : List (Instant × RangeToRecord)) (m : Map ReceivedSpan)
      (ranges : RangesToRecord)
      → Stores stored due
      → AllStored m
      → AllStored (write stored due m ranges).0
  unfolding write changed
  write-AllStored stored due m ranges s h =
      let m' = write_changed stored (changed m due) m in
      forget_all-AllStored (finished m' due) m' ranges
        (write_changed-AllStored stored (changed m due) m (All-retain_sub _ _ due s) h)

  pub forgets-Stored :
      (stored : ObservedSlots → Bool) (due : List (Instant × RangeToRecord)) (m : Map ReceivedSpan)
      (ranges : RangesToRecord) (session : Instant)
      → Stores stored due
      → AllStored m
      → get session ranges ≢ none
      → get session (write stored due m ranges).1 ≡ none
      → (range : RangeToRecord) × (Mem (session, range) due
          × (range.ended ≡ true)
          × Stored session range.span)
  unfolding write finished changed
  forgets-Stored stored due m ranges session s h ne e =
      let kept = write_changed-AllStored stored (changed m due) m (All-retain_sub _ _ due s) h in
      let m' = write_changed stored (changed m due) m in
      forget_all-Done due (finished m' due) m' ranges session
        (All-weaken _ (Done due)
          (λ x p. (
            p.0,
            and_left x.1.ended _ p.1,
            get-Stored x.0 x.1.span m' kept (and_right x.1.ended _ p.1),
          ))
          (finished m' due) (All-retain_both _ _ due (members due)))
        ne e
