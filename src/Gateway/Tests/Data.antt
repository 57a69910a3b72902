-- ===== src/Gateway/Tests/Data.antt =====
-- Two waiting messages of one session, and what the tests share.
use zoa.Base.{ℕ, ◌*◌, refl, none, some, [], ◌∷◌, arith}
use zoa.Base.Text.{Text, codes}
use zoa.Base.Stamp.{Instant, second, format}
use zoa.Base.Sql.{Db}
use zoa.Gateway.Tables.{Inbound, Tables, pending, Error, Json}
use zoa.Gateway.Inbound.{claim_due_inbound}
use zoa.Gateway.Invariant.{Inv}
use zoa.Gateway.Pump.{inbound_lease}

abbrev pub plain_json : Json
plain_json = record { marshal = λ fields. some (codes "{}"); unmarshal = λ text. some [] }

abbrev pub main : Text
main = codes "main"

abbrev pub tui : Text
tui = codes "tui"

abbrev pub waiting : ℕ → Instant → Inbound
waiting id at = record {
  id = id;
  session = main;
  channel = tui;
  text = codes "hello";
  input_json = codes "{}";
  received_at = format at;
  status = pending;
  attempt_count = 0;
  next_attempt_at = some (format at);
  lease_until = none;
  processed_at = none;
  error_text = none;
}

-- Two messages wait in one session, and nothing fails.
abbrev pub queue : Tables
queue = record {
  inbound = waiting 1 (5 * second) ∷ waiting 2 (6 * second) ∷ [];
  inbound_seq = 2;
  outbox = [];
  outbox_seq = 0;
}

abbrev pub start : Db Tables Error
start = record { tables = queue; faults = [] }

pub start-Inv : Inv start.tables
start-Inv = record {
  inbound_ids = omega arith;
  outbox_ids = omega arith;
  answered = (refl, (refl, tt));
  known = tt;
}

-- After the claim of the first message.
abbrev pub claimed_start : Db Tables Error
claimed_start = (claim_due_inbound plain_json main (7 * second) inbound_lease start).1
