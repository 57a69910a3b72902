-- ===== src/Gateway/Pump/Loop.antt =====
-- The pump function behind the decoding of its input. The environment gives each round its clock
-- readings, its events, and the calls that others make before it.
use zoa.Base.{ℕ, zero, suc, ◌+◌, none, some, List, if◌then◌else◌}
use zoa.Base.Int.{ℤ}
use zoa.Base.Text.{Text}
use zoa.Base.Stamp.{Instant}
use zoa.Base.Sql.{Result, ok, err, Db}
use zoa.Reliable.{Completed, complete_one}
use zoa.Gateway.Tables.{Tables, Error, message, Json, InboundRow}
use zoa.Gateway.Inbound.{pending_count}
use zoa.Gateway.Polling.{clamp}
use zoa.Gateway.History.{Call, run}
use zoa.Gateway.Pump.Job.{PumpState, Event, on_db, inbound_job_completer}

pub record Round : Type 0 where
  pub before : List Call
  pub claim_now : Instant
  pub events : List Event
  pub now : Instant

pub record PumpResult : Type 0 where
  pub processed : ℕ
  pub queue_len : ℕ
  pub last_inbound_id : ℕ
  pub last_outbox_id : ℕ

-- The state after the calls that others make between two rounds.
abbrev pub interfered : Json → List Call → PumpState → PumpState
interfered json calls s = record s { db = run json calls s.db }

-- completer.CompleteOne; the completer is made anew with the round's events
unfoldable pub pump_one :
    Json → (InboundRow → Result Error Text) → Text → Round → PumpState → Completed PumpState Error
pump_one json process session round s =
    complete_one message (some (inbound_job_completer json process round.events session))
      round.claim_now round.now (interfered json round.before s)

abbrev pub LoopResult : Type 0
LoopResult = Result Error (ℕ × ℕ) × PumpState

-- The body of the loop after CompleteOne, with the rest of the loop.
unfoldable pub after_one :
    (ℕ → ℕ → PumpState → LoopResult) → ℕ → ℕ → Completed PumpState Error → LoopResult
after_one rest processed last ((outcome, some e), s) = (err e, s)
after_one rest processed last ((outcome, none), s) =
    if outcome.claimed then rest (processed + 1) outcome.job_id s else (ok (processed, last), s)

-- `left` is limit - processed. The result is (processed, lastInboundID).
unfoldable pub pump_loop :
    Json
    → (InboundRow → Result Error Text)
    → (ℕ → Round)
    → Text
    → ℕ
    → ℕ
    → ℕ
    → PumpState
    → LoopResult
unfolding after_one
pump_loop json process rounds session zero processed last s = (ok (processed, last), s)
pump_loop json process rounds session (suc left) processed last s =
    after_one (pump_loop json process rounds session left) processed last
      (pump_one json process session (rounds processed) s)

abbrev pub result_of : ℕ → ℕ → ℕ → Result Error ℕ → Result Error PumpResult
result_of processed last last_outbox_id (err e) = err e
result_of processed last last_outbox_id (ok pending) = ok (record {
  processed = processed;
  queue_len = pending;
  last_inbound_id = last;
  last_outbox_id = last_outbox_id;
})

unfoldable pub pump_result : Text → LoopResult → Result Error PumpResult × PumpState
pump_result session (err e, s) = (err e, s)
pump_result session (ok (processed, last), s) =
    let (r, s') = on_db (pending_count session) s in
    (result_of processed last s.last_outbox_id r, s')

-- `limit` is 0 where the input has none.
unfoldable pub pump :
    Json
    → (InboundRow → Result Error Text)
    → (ℕ → Round)
    → Text
    → ℤ
    → Db Tables Error
    → Result Error PumpResult × PumpState
unfolding pump_result
pump json process rounds session limit d = pump_result session (
    pump_loop json process rounds session (clamp 1 200 limit) 0 0
      (record { db = d; last_outbox_id = 0 }))
