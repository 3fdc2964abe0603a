-- ===== src/Grpc/Listener/Silence.antt =====
-- What the read loop of crates/indexer/src/infra/grpc/listener/connector.rs makes of a stream: the
-- time it allows it before a stall, and whether the attempt counts as one that delivered.
use yog_sothoth.Prelude.{
  ℕ, ◌+◌, ◌-◌, ◌≡◌, ◌≢◌, ◌∙◌, ◌⊎◌, inl, inr, refl, ap, subst, Bool, true, false, ◌||◌, Option, none,
  some, List, [], ◌∷◌, arith,
}
use Prim.Native.String.{String}
use yog_sothoth.Domain.Protocols.{Result}
use yog_sothoth.Grpc.Buffer.Known.{Instant}
use yog_sothoth.Grpc.Session.Progress.{TransactionUpdate}
use yog_sothoth.Grpc.Session.Deliveries.{
  SessionState, open_state, downstream_closed, shutdown_requested, CoreError, Answer,
}
use yog_sothoth.Grpc.Session.{
  StreamSession, Update, UpdateOneof, transaction, block_meta, ping, pong, other, SendOutcome,
  handle,
}
use yog_sothoth.Grpc.Session.Liveness.{is_data, block_metas_of, handle-Marks}
use yog_sothoth.Grpc.Listener.Budget.{Verdict}
use yog_sothoth.Grpc.Listener.Clock.{
  StallClock, on_wait_started, on_wait_ended, on_block_meta, remaining,
}
use yog_sothoth.Grpc.Listener.{Ending, verdict}
use yog_sothoth.Grpc.Listener.Reading.{
  arrived, closed, broken, Wake, cancelled, slept, message, ending_of, Reader, on_message, wake,
  read, unless_over, tell,
}

-- Whether a verdict says that the attempt delivered; none for one that stops the listener.
abbrev pub judged : Verdict → Option Bool
judged Verdict.shutdown_requested = none
judged Verdict.consumer_gone = none
judged (Verdict.delivered e) = some true
judged (Verdict.server_failed e) = some false
judged (Verdict.unanswered e) = some false

verdict_closed : (b : Bool) → judged (verdict (Ending.stream_closed b)) ≡ some b
unfolding verdict
verdict_closed true = refl
verdict_closed false = refl

verdict_failed : (e : String) (b : Bool) → judged (verdict (Ending.failed e b)) ≡ some b
unfolding verdict
verdict_failed e true = refl
verdict_failed e false = refl

verdict_stalled : (e : String) (b : Bool) → judged (verdict (Ending.stalled e b)) ≡ some b
unfolding verdict
verdict_stalled e true = refl
verdict_stalled e false = refl

or_assoc : (a b c : Bool) → (a || b) || c ≡ a || (b || c)
or_assoc a b c = ground arith

or_false : (b : Bool) → b ≡ b || false
or_false b = ground arith

-- An ending, if it came from the stream, carries the mark.
abbrev Carries : Bool → Option Ending → Type 0
Carries d none = Unit
Carries d (some e) = (judged (verdict e) ≡ none) ⊎ (judged (verdict e) ≡ some d)

Carries-ending_of : (d : Bool) (state : SessionState) → Carries d (ending_of state)
unfolding ending_of verdict
Carries-ending_of d open_state = tt
Carries-ending_of d downstream_closed = inl refl
Carries-ending_of d shutdown_requested = inl refl

module _ {M Seconds : Type 0} where
  abbrev after_update : UpdateOneof M Seconds → ℕ → ℕ
  after_update (block_meta meta) n = 0
  after_update u n = n

module _ {M Seconds Status : Type 0} where
  -- Whether a message with data came before the stream ended.
  abbrev pub data_in : List (ℕ × Wake M Seconds Status) → Bool
  data_in [] = false
  data_in ((began, message ended (arrived u)) ∷ ws) = is_data u.update_oneof || data_in ws
  data_in ((began, message ended closed) ∷ ws) = false
  data_in ((began, message ended (broken status)) ∷ ws) = false
  data_in ((began, cancelled) ∷ ws) = false
  data_in ((began, slept) ∷ ws) = false

  -- The time spent on waits since the last block-meta, `n` of it before.
  abbrev pub silence : ℕ → List (ℕ × Wake M Seconds Status) → ℕ
  silence n [] = n
  silence n ((began, message ended (arrived u)) ∷ ws) =
      silence (after_update u.update_oneof (n + (ended - began))) ws
  silence n ((began, w) ∷ ws) = silence n ws

module _ {M Tx : Type 0} where
  -- Where the clock stands, if the stream has not ended.
  abbrev Stands : ℕ → ℕ → Reader M Tx × Option Ending → Type 0
  Stands n timeout o = o.1 ≡ none → (o.0.clock.silent ≡ n) × (o.0.clock.timeout ≡ timeout)

  unless_over-Stands :
      (n timeout : ℕ) (r : Reader M Tx) (next : Reader M Tx → Reader M Tx × Option Ending)
      (o : Option Ending)
      → Stands n timeout (next r)
      → Stands n timeout (unless_over next (r, o))
  unless_over-Stands n timeout r next none h e = h e
  unless_over-Stands n timeout r next (some x) h e = ground arith

  unless_over-Carries :
      (d : Bool) (r : Reader M Tx) (next : Reader M Tx → Reader M Tx × Option Ending)
      (o : Option Ending)
      → Carries d o
      → Carries d (next r).1
      → Carries d (unless_over next (r, o)).1
  unless_over-Carries d r next none c n = n
  unless_over-Carries d r next (some e) c n = c

module _ {M Seconds Tx : Type 0} where
  tell_lem :
      (u : UpdateOneof M Seconds) (s t : StreamSession M Tx) (c : StallClock)
      → t.block_metas ≡ s.block_metas + block_metas_of u
      → ((tell s.block_metas t c).silent ≡ after_update u c.silent)
        × ((tell s.block_metas t c).timeout ≡ c.timeout)
  unfolding on_block_meta
  tell_lem (transaction u) s t c m = ground arith
  tell_lem (block_meta meta) s t c m = ground arith
  tell_lem (UpdateOneof.slot status) s t c m = ground arith
  tell_lem ping s t c m = ground arith
  tell_lem pong s t c m = ground arith
  tell_lem other s t c m = ground arith

module _ {M Seconds Tx Status : Type 0} (from_timestamp : Seconds → Option Instant)
    (from_grpc : TransactionUpdate M → Instant → Result CoreError Tx) (consumer : ℕ → Answer)
    (outbound : ℕ → SendOutcome) (stream_error : Status → String) (stall_error : String) where
  -- What one more update does to the reader.
  step_mark :
      (u : Update M Seconds) (s : StreamSession M Tx)
      → (handle from_timestamp from_grpc consumer outbound u s).0.received_data
        ≡ s.received_data || is_data u.update_oneof
  step_mark u s = (handle-Marks from_timestamp from_grpc consumer outbound u s).received

  read-Carries :
      (ws : List (ℕ × Wake M Seconds Status)) (r : Reader M Tx)
      → Carries
          (r.session.received_data || data_in ws)
          (read from_timestamp from_grpc consumer outbound stream_error stall_error ws r).1
  unfolding read wake on_message
  read-Carries [] r = tt
  read-Carries ((began, cancelled) ∷ ws) r = unfold verdict in inl refl
  read-Carries ((began, slept) ∷ ws) r = inr (
      verdict_stalled stall_error r.session.received_data
      ∙ ap some (or_false r.session.received_data))
  read-Carries ((began, message ended closed) ∷ ws) r =
      inr (verdict_closed r.session.received_data ∙ ap some (or_false r.session.received_data))
  read-Carries ((began, message ended (broken status)) ∷ ws) r = inr (
      verdict_failed (stream_error status) r.session.received_data
      ∙ ap some (or_false r.session.received_data))
  read-Carries ((began, message ended (arrived u)) ∷ ws) r =
      let (t, state) = handle from_timestamp from_grpc consumer outbound u r.session in
      let clock = on_wait_ended ended (on_wait_started began r.clock) in
      let next : Reader M Tx = record { session = t; clock = tell r.session.block_metas t clock } in
      let mark =
        ap (λ b. b || data_in ws) (step_mark u r.session)
        ∙ or_assoc r.session.received_data (is_data u.update_oneof) (data_in ws) in
      unless_over-Carries (r.session.received_data || (is_data u.update_oneof || data_in ws)) next
        (read from_timestamp from_grpc consumer outbound stream_error stall_error ws)
        (ending_of state) (Carries-ending_of _ state)
        (subst
          (λ d.
            Carries d
              (read from_timestamp from_grpc consumer outbound stream_error stall_error ws next).1)
          mark (read-Carries ws next))

  Carries-judged :
      (d : Bool) (o : Option Ending) (e : Ending)
      → Carries d o
      → o ≡ some e
      → judged (verdict e) ≢ none
      → judged (verdict e) ≡ some d
  Carries-judged d o e c eq ne = elim (subst (Carries d) eq c) [ inl n ↦ absurd (ne n) | inr y ↦ y ]

  -- An attempt that the stream ended, and neither the shutdown nor the consumer, is judged to have
  -- delivered exactly if data had come before, or a transaction, a block-meta or a slot status was
  -- read from the stream: pings do not count.
  pub read-verdict :
      (ws : List (ℕ × Wake M Seconds Status)) (r : Reader M Tx) (e : Ending)
      → (read from_timestamp from_grpc consumer outbound stream_error stall_error ws r).1 ≡ some e
      → judged (verdict e) ≢ none
      → judged (verdict e) ≡ some (r.session.received_data || data_in ws)
  read-verdict ws r e eq ne = Carries-judged _ _ e (read-Carries ws r) eq ne

  read-Stands :
      (ws : List (ℕ × Wake M Seconds Status)) (r : Reader M Tx)
      → Stands
          (silence r.clock.silent ws)
          r.clock.timeout
          (read from_timestamp from_grpc consumer outbound stream_error stall_error ws r)
  unfolding read wake on_message on_wait_ended on_wait_started
  read-Stands [] r e = (refl, refl)
  read-Stands ((began, cancelled) ∷ ws) r e = ground arith
  read-Stands ((began, slept) ∷ ws) r e = ground arith
  read-Stands ((began, message ended closed) ∷ ws) r e = ground arith
  read-Stands ((began, message ended (broken status)) ∷ ws) r e = ground arith
  read-Stands ((began, message ended (arrived u)) ∷ ws) r e =
      let (t, state) = handle from_timestamp from_grpc consumer outbound u r.session in
      let clock = on_wait_ended ended (on_wait_started began r.clock) in
      let m = (handle-Marks from_timestamp from_grpc consumer outbound u r.session).metas in
      let told = tell_lem u.update_oneof r.session t clock m in
      let next : Reader M Tx = record { session = t; clock = tell r.session.block_metas t clock } in
      unless_over-Stands _ _ next
        (read from_timestamp from_grpc consumer outbound stream_error stall_error ws)
        (ending_of state)
        (λ o.
          let (silent, timeout) = read-Stands ws next o in
          (silent ∙ ap (λ n. silence n ws) told.0, timeout ∙ told.1))
        e

  -- While the stream has not ended, the time that the read loop still allows it before a stall is
  -- the timeout less what was spent on waits since the last block-meta: nothing else that the server
  -- sends renews it.
  pub read-remaining :
      (ws : List (ℕ × Wake M Seconds Status)) (r : Reader M Tx)
      → let o = read from_timestamp from_grpc consumer outbound stream_error stall_error ws r in
        o.1 ≡ none → remaining o.0.clock ≡ r.clock.timeout - silence r.clock.silent ws
  unfolding remaining
  read-remaining ws r e =
      let (silent, timeout) = read-Stands ws r e in omega (arith, silent, timeout)
