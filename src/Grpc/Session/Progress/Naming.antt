-- ===== src/Grpc/Session/Progress/Naming.antt =====
-- The report on bank ids of crates/indexer/src/infra/grpc/session/slot_progress.rs.
use yog_sothoth.Prelude.{
  ℕ, ◌≡◌, refl, sym, subst, ◌⊎◌, inl, inr, none, some, List, [], ◌∷◌, arith, Bool, true, false,
}
use yog_sothoth.Grpc.Buffer.Banks.{Bank, id, unknown}
use yog_sothoth.Grpc.Session.Progress.{SlotProgress, BankIds, named, missing, report_bank_naming}

-- What a session ought to report of the banks of its messages.
abbrev pub any_unknown : List Bank → Bool
any_unknown [] = false
any_unknown (id n ∷ bs) = any_unknown bs
any_unknown (unknown ∷ bs) = true

abbrev pub verdict : Bool → BankIds
verdict true = missing
verdict false = named

module _ {M : Type 0} where
  unfoldable pub report_all : SlotProgress M → List Bank → SlotProgress M
  report_all p [] = p
  report_all p (b ∷ bs) = report_all (report_bank_naming b p) bs

  report_missing :
      (p : SlotProgress M) (b : Bank) → p.bank_ids ≡ some missing → report_bank_naming b p ≡ p
  unfolding report_bank_naming
  report_missing p b e = rw (e, report_bank_naming)

  report_all_missing :
      (p : SlotProgress M) (bs : List Bank) → p.bank_ids ≡ some missing → report_all p bs ≡ p
  unfolding report_all
  report_all_missing p [] e = refl
  report_all_missing p (b ∷ bs) e = rw (report_missing p b e) (report_all_missing p bs e)

  report_named :
      (p : SlotProgress M) (n : ℕ) → p.bank_ids ≡ some named → report_bank_naming (id n) p ≡ p
  unfolding report_bank_naming
  report_named p n e = rw (e, report_bank_naming)

  -- What the state and the gauge say of a list of banks.
  abbrev pub Says : Bool → SlotProgress M → Type 0
  Says b p = (p.bank_ids ≡ some (verdict b)) × (p.bank_id_missing ≡ b)

  first_unknown :
      (p : SlotProgress M)
      → (p.bank_ids ≡ some named) ⊎ (p.bank_ids ≡ none)
      → Says true (report_bank_naming unknown p)
  unfolding report_bank_naming
  first_unknown p h = ground arith

  first_named :
      (p : SlotProgress M) (n : ℕ) → p.bank_ids ≡ none → Says false (report_bank_naming (id n) p)
  unfolding report_bank_naming
  first_named p n h = ground arith

  report_all_named :
      (p : SlotProgress M) (bs : List Bank) → Says false p → Says (any_unknown bs) (report_all p bs)
  unfolding report_all
  report_all_named p [] h = h
  report_all_named p (id n ∷ bs) h =
      subst (λ q. Says (any_unknown bs) (report_all q bs)) (sym (report_named p n h.0))
        (report_all_named p bs h)
  report_all_named p (unknown ∷ bs) h =
      let now = first_unknown p (inl h.0) in
      subst (Says true) (sym (report_all_missing (report_bank_naming unknown p) bs now.0)) now

  -- After its first message, a session that had reported nothing says that bank ids are missing, and
  -- sets the gauge, exactly when some message named no bank.
  pub report_all-Says :
      (p : SlotProgress M) (b : Bank) (bs : List Bank)
      → p.bank_ids ≡ none
      → Says (any_unknown (b ∷ bs)) (report_all p (b ∷ bs))
  unfolding report_all
  report_all-Says p (id n) bs e =
      report_all_named (report_bank_naming (id n) p) bs (first_named p n e)
  report_all-Says p unknown bs e =
      let now = first_unknown p (inr e) in
      subst (Says true) (sym (report_all_missing (report_bank_naming unknown p) bs now.0)) now
