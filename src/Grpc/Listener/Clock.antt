-- ===== src/Grpc/Listener/Clock.antt =====
-- crates/indexer/src/infra/grpc/listener/stall_clock.rs: how long the server has said nothing that
-- proves the stream alive. Instants and durations are numbers of one unit.
use yog_sothoth.Prelude.{ℕ, ◌+◌, ◌-◌, Option, none, some}

pub record StallClock : Type 0 where
  pub timeout : ℕ
  pub silent : ℕ
  pub waiting_since : Option ℕ

unfoldable pub new : ℕ → StallClock
new timeout = record { timeout = timeout; silent = 0; waiting_since = none }

unfoldable pub on_wait_started : ℕ → StallClock → StallClock
on_wait_started at c = record c { waiting_since = some at }

-- `take` empties the field; `saturating_duration_since` stops at zero.
unfoldable pub on_wait_ended : ℕ → StallClock → StallClock
on_wait_ended at c = elim c.waiting_since [
  | none ↦ c
  | some since ↦ record c { waiting_since = none; silent = c.silent + (at - since) }
]

unfoldable pub on_block_meta : StallClock → StallClock
on_block_meta c = record c { silent = 0 }

unfoldable pub remaining : StallClock → ℕ
remaining c = c.timeout - c.silent
