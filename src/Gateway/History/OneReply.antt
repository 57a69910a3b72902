-- ===== src/Gateway/History/OneReply.antt =====
-- The invariant of hub/util/gateway/state.go under histories of calls.
use zoa.Base.{List}
use zoa.Base.Sql.{Db}
use zoa.Gateway.Tables.{Tables, Error, Json}
use zoa.Gateway.Invariant.{Inv, add_inbound-Inv, update_inbound-Inv, add_outbox-Inv}
use zoa.Gateway.Closing.{closed-Inv}
use zoa.Gateway.History.Step.{Call, run}
use zoa.Gateway.History.Preserve.{IsPreserved, run-Preserved}

pub Inv-IsPreserved : IsPreserved Inv
Inv-IsPreserved = record {
  added = add_inbound-Inv;
  updated = λ p f t adv v. update_inbound-Inv p f t adv.same_id adv.same_open v;
  completed = λ set session channel reply id attempt at t closes v.
      closed-Inv set session channel reply id attempt at closes.same_id closes.shut t v;
  announced = add_outbox-Inv;
}

-- After any history of operations on a database that meets the invariant, whichever statements
-- fail: ids are in order and known, and each message has one reply in the outbox if it is closed
-- and none while it is open.
pub run-Inv :
    (json : Json) (cs : List Call) (d : Db Tables Error) → Inv d.tables → Inv (run json cs d).tables
run-Inv json cs d v = run-Preserved Inv Inv-IsPreserved json cs d v
