-- ===== src/Gateway/History/Step.antt =====
-- A call of each operation of the gateway's state, and the state after it.
use zoa.Base.{ℕ, Option, none, List, [], ◌∷◌}
use zoa.Base.Int.{ℤ}
use zoa.Base.Text.{Text}
use zoa.Base.Stamp.{Instant}
use zoa.Base.Sql.{Db}
use zoa.Gateway.Tables.{Tables, Error, Fields, Json}
use zoa.Gateway.Inbound.{
  insert_inbound, claim_due_inbound_id, renew_inbound_lease, mark_inbound_retry,
}
use zoa.Gateway.Outbox.{insert_outbox}
use zoa.Gateway.Complete.{complete_inbound_success, complete_inbound_failure}

pub data Call : Type 0 where
  receive : Text → Text → Text → Option Fields → Instant → Call
  claim : Text → Instant → ℤ → Call
  renew : ℕ → ℕ → Instant → ℤ → Call
  retry : ℕ → ℕ → Text → Instant → Call
  succeed : Text → Text → Text → ℕ → ℕ → Instant → Call
  give_up : Text → Text → Text → ℕ → ℕ → Instant → Text → Call
  announce : Text → Text → Text → Instant → Call

unfoldable pub step : Json → Call → Db Tables Error → Db Tables Error
step json (receive session channel text input at) d =
    (insert_inbound json session channel text input at d).1
step json (claim session now lease) d = (claim_due_inbound_id session now lease d).1
step json (renew id attempt now lease) d = (renew_inbound_lease id attempt now lease d).1
step json (retry id attempt error next) d = (mark_inbound_retry id attempt error next d).1
step json (succeed session channel reply id attempt at) d =
    (complete_inbound_success session channel reply id attempt at d).1
step json (give_up session channel reply id attempt at error) d =
    (complete_inbound_failure session channel reply id attempt at error d).1
step json (announce session channel text at) d = (insert_outbox session channel text none at d).1

unfoldable pub run : Json → List Call → Db Tables Error → Db Tables Error
unfolding step
run json [] d = d
run json (c ∷ cs) d = run json cs (step json c d)
