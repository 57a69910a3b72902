-- ===== src/Gateway/Pump/Attempts.antt =====
-- What a round of the pump does to the message that it has claimed, while it holds the lease.
use zoa.Base.{
  ℕ, ◌+◌, ◌≤◌, ◌<◌, ◌≡◌, refl, ◌⊎◌, ◌++◌, inl, inr, true, false, some, arith, Bool-cases, ltb,
}
use zoa.Base.Text.{Text, codes, decimal}
use zoa.Base.Stamp.{Instant}
use zoa.Base.Sql.{Result, ok, err, Db}
use zoa.Reliable.{complete_one, after_claim, after_handle}
use zoa.Gateway.Tables.{Tables, Error, lease_lost, message, Json, InboundRow}
use zoa.Gateway.Inbound.{claim_due_inbound, mark_inbound_retry}
use zoa.Gateway.Complete.{complete_inbound_success, complete_inbound_failure}
use zoa.Gateway.Retry.{is_retryable_inbound_error, inbound_retry_backoff}
use zoa.Gateway.History.{run}
use zoa.Gateway.Pump.Job.{
  PumpState, attend, inbound_lease, claim_due, handle, complete, retry, fail, inbound_job_completer,
}
use zoa.Gateway.Pump.Loop.{Round, pump_one}

-- The one call on the database after the processing, and what it leaves.
abbrev pub Settled :
    Text → InboundRow → Instant → Result Error Text → Db Tables Error → Db Tables Error → Type 0
Settled session row now outcome d d' =
    ((reply : Text) × (outcome ≡ ok reply)
      × (d' ≡ (complete_inbound_success session row.channel reply row.id row.attempt now d).1))
    ⊎ ((text : Text) × (outcome ≡ err (message text))
        × (is_retryable_inbound_error text ≡ true)
        × (row.attempt < 3)
        × (d'
            ≡ (mark_inbound_retry row.id row.attempt text (now + inbound_retry_backoff row.attempt)
                d).1))
    ⊎ ((text : Text) × (outcome ≡ err (message text))
        × ((is_retryable_inbound_error text ≡ false) ⊎ (3 ≤ row.attempt))
        × (d'
            ≡ (complete_inbound_failure session row.channel
                (codes "Failed to process message " ++ (decimal row.id ++ (codes ": " ++ text)))
                row.id row.attempt now text d).1))
    ⊎ ((outcome ≡ err lease_lost) × (d' ≡ d))

lease_lost_once : is_retryable_inbound_error (codes "inbound lease lost") ≡ false
unfolding is_retryable_inbound_error
lease_lost_once = refl

attempts_cases :
    (attempt : ℕ)
    → ((ltb attempt 3 ≡ true) × (attempt < 3)) ⊎ ((ltb attempt 3 ≡ false) × (3 ≤ attempt))
attempts_cases attempt = ground arith

-- A round of the pump that claims a message, and does not see its lease lost while the message is
-- processed, then makes exactly one call on the database, by what the processing returned: a reply
-- completes the message with it; an error that is one to retry schedules a retry after the backoff
-- of the attempt, if it is the first or the second attempt; any other error, and any error of a later
-- attempt, completes the message as failed, with a reply that names the error. Where the processing
-- itself says that the lease is lost, there is none.
pub pump_one-Settled :
    (json : Json) (process : InboundRow → Result Error Text) (session : Text) (round : Round)
    (s : PumpState) {row : InboundRow}
    → (claim_due_inbound json session round.claim_now inbound_lease (run json round.before s.db)).0
      ≡ ok (some row)
    → let d =
        (claim_due_inbound json session round.claim_now inbound_lease
          (run json round.before s.db)).1 in
      let d' = (attend json row.id row.attempt false round.events d).1 in
      (attend json row.id row.attempt false round.events d).0 ≡ false
      → Settled session row round.now (process row) d' (pump_one json process session round s).1.db
unfolding pump_one complete_one after_claim after_handle inbound_job_completer claim_due handle
    complete retry fail
pump_one-Settled json process session round s {row} won kept = by_outcome (process row) refl
  where
    by_outcome :
        (o : Result Error Text)
        → process row ≡ o
        → Settled session row round.now o
            (attend json row.id row.attempt false round.events
              (claim_due_inbound json session round.claim_now inbound_lease
                (run json round.before s.db)).1).1
            (pump_one json process session round s).1.db
    by_outcome (ok reply) e = rw (won, kept, e) (inl (reply, refl, refl))
    by_outcome (err lease_lost) e =
        rw (won, kept, e, lease_lost_once) (inr (inr (inr (refl, refl))))
    by_outcome (err (message text)) e = elim (Bool-cases (is_retryable_inbound_error text)) [
      | inr never ↦ rw (won, kept, e, never) (inr (inr (inl (text, refl, inl never, refl))))
      | inl again ↦ elim (attempts_cases row.attempt) [
        | inl (left, lt) ↦ rw (won, kept, e, again, left) (inr (inl (text, refl, again, lt, refl)))
        | inr (used, le) ↦
            rw (won, kept, e, again, used) (inr (inr (inl (text, refl, inr le, refl))))
      ]
    ]
