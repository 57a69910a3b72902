-- ===== src/Gateway/Tests/Pumping.antt =====
-- Pumps at concrete data.
use zoa.Base.{ℕ, ◌*◌, ◌≡◌, refl, true, false, none, some, List, [], ◌∷◌}
use zoa.Base.Int.{pos}
use zoa.Base.Text.{Text, codes, trim}
use zoa.Base.Stamp.{second, format, stamp_le}
use zoa.Base.Sql.{Result, ok, err, exec, query, transaction}
use zoa.Reliable.{complete_one}
use zoa.Gateway.Tables.{Error, message, InboundRow}
use zoa.Gateway.Inbound.{
  claim_due_inbound_id, claim_due_inbound, update_inbound, inbound_by_id, pending_count,
  renew_inbound_lease,
}
use zoa.Gateway.Outbox.{add_outbox, tx_insert_outbox, outbox_row}
use zoa.Gateway.Complete.{complete_inbound_success, close_inbound}
use zoa.Gateway.Pump.{
  PumpState, Round, Event, tick, call, pump, pump_one, pump_loop, attend, inbound_lease,
  inbound_job_completer,
}
use zoa.Gateway.Pump.Outcome.{pump_one_lost}
use zoa.Gateway.Pump.Attempts.{Settled, pump_one-Settled}
use zoa.Gateway.History.{claim, step, run}
use zoa.Gateway.Tests.Data.{plain_json, main, tui, start, claimed_start}

-- The processing echoes the message.
echo : InboundRow → Result Error Text
echo row = ok row.text

-- While the first message is processed its lease runs out and another worker claims it.
abbrev stolen : List Event
stolen = call (claim main (200 * second) (pos (2 * second))) ∷ tick (201 * second) ∷ []

rounds : ℕ → Round
rounds n = record { before = []; claim_now = 7 * second; events = []; now = 8 * second }

round_stolen : Round
round_stolen = record { before = []; claim_now = 7 * second; events = stolen; now = 202 * second }

abbrev state : PumpState
state = record { db = start; last_outbox_id = 0 }

first_row : InboundRow
unfolding format
first_row = record {
  id = 1;
  attempt = 1;
  session = main;
  channel = tui;
  text = codes "hello";
  received_at = format (5 * second);
  pump_input = [];
}

first_claimed :
    (claim_due_inbound plain_json main (7 * second) inbound_lease state.db).0 ≡ ok (some first_row)
unfolding claim_due_inbound claim_due_inbound_id inbound_by_id outbox_row transaction query exec
    update_inbound stamp_le format first_row trim
first_claimed = refl

first_lost : (attend plain_json 1 1 false stolen claimed_start).0 ≡ true
unfolding claim_due_inbound claim_due_inbound_id inbound_by_id transaction query exec update_inbound
    renew_inbound_lease step attend stamp_le format trim
first_lost = refl

pump_one_lost_example : pump_one plain_json echo main round_stolen state ≡ (
  (record { claimed = true; job_id = 1; attempt = 1 }, none),
  record state { db = (attend plain_json 1 1 false stolen claimed_start).1 },
)
unfolding round_stolen first_row run
pump_one_lost_example =
    pump_one_lost plain_json echo main round_stolen state first_claimed first_lost

-- The head is claimed and answered, and nothing else is due.
pumped_one :
    (pump plain_json echo rounds main (pos 5) start).0
    ≡ ok (record { processed = 2; queue_len = 0; last_inbound_id = 2; last_outbox_id = 2 })
unfolding pump pump_loop pump_one complete_one attend claim_due_inbound claim_due_inbound_id
    inbound_by_id transaction query exec update_inbound complete_inbound_success tx_insert_outbox
    add_outbox close_inbound pending_count inbound_job_completer stamp_le format echo rounds trim
    run
pumped_one = refl

-- The processing runs into the rate limit of the model.
abbrev overloaded : InboundRow → Result Error Text
overloaded row = err (message (codes "429 Too Many Requests"))

first_kept : (attend plain_json 1 1 false [] claimed_start).0 ≡ false
unfolding attend
first_kept = refl

pump_one-Settled_example :
    Settled main first_row
      (8 * second)
      (overloaded first_row)
      (attend plain_json 1 1 false [] claimed_start).1
      (pump_one plain_json overloaded main (rounds 0) state).1.db
unfolding rounds first_row run
pump_one-Settled_example =
    pump_one-Settled plain_json overloaded main (rounds 0) state first_claimed first_kept
