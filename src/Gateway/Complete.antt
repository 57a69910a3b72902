-- ===== src/Gateway/Complete.antt =====
-- completeInboundSuccess and completeInboundFailure of hub/util/gateway/state.go: the reply is
-- written in the transaction that closes the message, if the caller still holds its attempt.
use zoa.Base.{ℕ, zero, suc, Bool, true, false, none, some}
use zoa.Base.Text.{Text, trim}
use zoa.Base.Stamp.{Instant, Stamp, format}
use zoa.Base.Sql.{pure, ◌>>=◌, exec, transaction}
use zoa.Gateway.Tables.{done, failed, Inbound, Action}
use zoa.Gateway.Inbound.{held, update_inbound}
use zoa.Gateway.Outbox.{tx_insert_outbox}

abbrev pub succeeded : Stamp → Inbound → Inbound
succeeded at r = record r {
  status = done;
  processed_at = some at;
  error_text = none;
  lease_until = none;
}

abbrev pub gave_up : Stamp → Text → Inbound → Inbound
gave_up at error r = record r {
  status = failed;
  processed_at = some at;
  lease_until = none;
  error_text = some error;
}

-- After the UPDATE: the reply, unless no row was affected.
unfoldable pub write_reply : ℕ → Text → Text → Text → ℕ → Instant → Action (ℕ × Bool)
write_reply zero session channel reply id at = pure (0, false)
write_reply (suc n) session channel reply id at = do
  outbox_id ← tx_insert_outbox session channel reply (some id) at
  pure (outbox_id, true)

-- The body that the two transactions share, over the UPDATE's assignments.
unfoldable pub close_inbound :
    (Inbound → Inbound) → Text → Text → Text → ℕ → ℕ → Instant → Action (ℕ × Bool)
unfolding write_reply
close_inbound set session channel reply id attempt at = do
  affected ← exec (update_inbound (held id attempt) set)
  write_reply affected session channel reply id at

-- The outbox id, and whether the message was still this attempt's.
unfoldable pub complete_inbound_success : Text → Text → Text → ℕ → ℕ → Instant → Action (ℕ × Bool)
unfolding close_inbound
complete_inbound_success session channel reply id attempt at =
    transaction (close_inbound (succeeded (format at)) session channel reply id attempt at)

unfoldable pub complete_inbound_failure :
    Text → Text → Text → ℕ → ℕ → Instant → Text → Action (ℕ × Bool)
unfolding close_inbound
complete_inbound_failure session channel failure_text id attempt at error =
    transaction
      (close_inbound (gave_up (format at) (trim error)) session channel failure_text id attempt at)
