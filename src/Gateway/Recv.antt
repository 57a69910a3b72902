-- ===== src/Gateway/Recv.antt =====
-- gateway.recv of hub/util/gateway/functions.go, which puts a message into the queue and spawns a
-- pump. The pump runs at the same time: its calls, and those of other workers, are between the
-- insertion and the counting.
pub mod Queued
use zoa.Base.{ℕ, Bool, true, false, some, List}
use zoa.Base.Text.{Text, codes, trim}
use zoa.Base.Stamp.{Instant}
use zoa.Base.Sql.{pure, ◌>>=◌}
use zoa.Gateway.Tables.{Fields, Json, Action}
use zoa.Gateway.Inbound.{insert_inbound, pending_count}
use zoa.Gateway.History.{Call, run}
use zoa.Gateway.Inputs.{lift, string_input, gateway_session, pump_input}

-- The output of recv; `accepted` is always true.
pub record Receipt : Type 0 where
  pub session : Text
  pub inbound_id : ℕ
  pub decision : Text
  pub queue_len : ℕ

abbrev pub decision_of : Bool → Text
decision_of true = codes "queued_pump_triggered"
decision_of false = codes "queued_pump_trigger_failed"

abbrev pub receipt : Bool → Text → ℕ → ℕ → Receipt
receipt spawned session id pending = record {
  session = session;
  inbound_id = id;
  decision = decision_of spawned;
  queue_len = pending;
}

-- The count after what others do.
abbrev pub count_after : Json → List Call → Text → Action ℕ
count_after json others session d = pending_count session (run json others d)

module _ (json : Json) (spawned : Bool) (others : List Call) (now : Instant) where
  -- What recv does once its input is decoded; `spawned` says whether the pump could be spawned, and
  -- `others` is what it and other workers do until recv counts.
  unfoldable pub queue : Text → Text → Text → Fields → Action Receipt
  queue session channel text fields =
      insert_inbound json session channel text (some fields) now >>= λ id.
      (count_after json others session >>= λ pending. pure (receipt spawned session id pending))

  abbrev pub with_channel : Fields → Text → Text → Text → Action Receipt
  with_channel fields session text channel =
      lift (pump_input fields) >>= queue session (trim channel) text

  abbrev pub with_text : Fields → Text → Text → Action Receipt
  with_text fields session text =
      lift (string_input fields (codes "channel") false) >>= with_channel fields session text

  abbrev pub with_session : Fields → Text → Action Receipt
  with_session fields session =
      lift (string_input fields (codes "message") true) >>= with_text fields session

  unfoldable pub recv : Fields → Action Receipt
  unfolding queue
  recv fields = lift (gateway_session fields) >>= with_session fields
