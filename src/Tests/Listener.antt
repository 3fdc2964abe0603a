-- ===== src/Tests/Listener.antt =====
-- The listener of crates/indexer/src/infra/grpc/listener.rs and the recorder beside it on small inputs.
use yog_sothoth.Prelude.{
  ℕ, ◌<◌, ◌≡◌, ◌≢◌, none, Bool, ltb, ltb→lt, inl, inr, refl, true, false, some, List, [], ◌∷◌,
  arith,
}
use yog_sothoth.Prelude.Map.{get, insert, remove}
use mathlib.Core.List.{Mem}
use Prim.Native.String.{String}
use yog_sothoth.Domain.Protocols.{Protocol, meteora_damm_v2, ok, err}
use yog_sothoth.Grpc.Session.Span.{ReceivedSpan}
use yog_sothoth.Grpc.Ranges.{RangeToRecord, ObservedSlots, rows, forget}
use yog_sothoth.Grpc.Session.{ping, pong, handle, handle_oneof, protocol_of}
use yog_sothoth.Tests.Session.{idle, from_timestamp, from_grpc, consumer, outbound}
use yog_sothoth.Grpc.Listener.Budget
use yog_sothoth.Grpc.Listener.Clock
use yog_sothoth.Grpc.Listener.Clock.{remaining}
use yog_sothoth.Grpc.Listener.{Ending, verdict, Round, attempts}
use yog_sothoth.Grpc.Listener.Streaks
use yog_sothoth.Grpc.Listener.Reading.{
  arrived, closed, Wake, message, Reader, read, wake, on_message, ending_of,
}
use yog_sothoth.Grpc.Listener.Silence
use yog_sothoth.Grpc.Recorder.{write, finished, changed, write_changed, forget_all, record_rows}
use yog_sothoth.Grpc.Recorder.Kept
use yog_sothoth.Grpc.Recorder.Taken

abbrev refused : Round
refused = record { is_cancelled = false; attempted = ok (Ending.unreachable "refused") }

abbrev reset : Round
reset = record { is_cancelled = false; attempted = ok (Ending.failed "reset" true) }

refused-Fails : Streaks.Fails refused "refused"
unfolding verdict
refused-Fails = (refl, (Ending.unreachable "refused", refl, refl))

attempts_give_up_example : attempts (refused ∷ refused ∷ refused ∷ []) (Budget.new 3) ≡ record {
  waits = 1 ∷ 2 ∷ [];
  result = some (err (Budget.GrpcListenerError.retries_exhausted 3 "refused"));
}
attempts_give_up_example =
    Streaks.attempts_give_up 3 (refused ∷ refused ∷ refused ∷ []) "refused"
      (("refused", refused-Fails), (("refused", refused-Fails), refused-Fails)) refl

attempts-Waiting_example :
    Streaks.Waiting
      (refused ∷ reset ∷ refused ∷ [])
      (attempts (refused ∷ reset ∷ refused ∷ []) (Streaks.streak 0 2))
unfolding verdict
attempts-Waiting_example = Streaks.attempts-Waiting 0 2 (refused ∷ reset ∷ refused ∷ []) (
    inl (
      ("refused", refused-Fails),
      omega arith,
      inr (
        (refl, (Ending.failed "reset" true, (some "reset", refl, refl))),
        inl (("refused", refused-Fails), omega arith, tt),
      ),
    ))

abbrev reader : Reader ℕ ℕ
reader = record { session = idle; clock = Clock.new 30 }

abbrev wakes : List (ℕ × Wake ℕ ℕ String)
wakes =
    (0, message 7 (arrived (record { filters = []; update_oneof = ping })))
    ∷ (8, message 12 (arrived (record { filters = []; update_oneof = pong })))
    ∷ []

read-remaining_example :
    remaining
      (read from_timestamp from_grpc consumer outbound (λ s. s) "stalled" wakes reader).0.clock
    ≡ 19
unfolding Clock.new read wake on_message handle handle_oneof protocol_of ending_of
read-remaining_example =
    Silence.read-remaining from_timestamp from_grpc consumer outbound (λ s. s) "stalled" wakes
      reader refl

abbrev pinged : List (ℕ × Wake ℕ ℕ String)
pinged =
    (8, message 12 (arrived (record { filters = []; update_oneof = ping })))
    ∷ (13, message 14 closed)
    ∷ []

read-verdict_example : Silence.judged (verdict (Ending.stream_closed false)) ≡ some false
unfolding verdict read wake on_message handle handle_oneof protocol_of ending_of
read-verdict_example =
    Silence.read-verdict from_timestamp from_grpc consumer outbound (λ s. s) "stalled" pinged reader
      (Ending.stream_closed false) refl (ground arith)

abbrev span : ReceivedSpan
span = record { first = 5; first_at = 100; last = 9; last_at = 109 }

abbrev over : RangeToRecord
over = record { protocols = meteora_damm_v2 ∷ []; span = span; ended = true }

-- Sessions 1 and 2 are over; the repository takes the row of the first and refuses that of the second.
abbrev two_over : List (ℕ × RangeToRecord)
two_over = (1, over) ∷ (2, record over { span = record span { last = 12 } }) ∷ []

abbrev takes : ObservedSlots → Bool
takes row = ltb row.last_slot 10

write_keeps_refused : get 2 (write takes two_over [] two_over).1 ≢ none
unfolding get remove insert write finished changed write_changed forget_all record_rows rows forget
write_keeps_refused = ground arith

abbrev IsTaken : ObservedSlots → Type 0
IsTaken row = row.last_slot < 10

abbrev protocols : ℕ → List Protocol
protocols session = meteora_damm_v2 ∷ []

write_forgets_example :
    Kept.AllStored (Taken.IsStored IsTaken protocols) (write takes two_over [] two_over).0
    × ((session : ℕ)
        → get session two_over ≢ none
        → get session (write takes two_over [] two_over).1 ≡ none
        → (range : RangeToRecord) × (Mem (session, range) two_over
            × (range.ended ≡ true)
            × Taken.IsStored IsTaken protocols session range.span))
write_forgets_example =
    Taken.write_forgets IsTaken protocols takes two_over [] two_over
      (λ row e. ltb→lt row.last_slot 10 e) (refl, (refl, tt)) tt
