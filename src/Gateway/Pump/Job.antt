-- ===== src/Gateway/Pump/Job.antt =====
-- newInboundJobCompleter. While a message is processed the environment makes events: a tick of the
-- heartbeat, or a call that some other worker, receiver or spawned task makes on the same database.
use zoa.Base.{
  ℕ, ◌+◌, ◌*◌, Bool, true, false, ◌++◌, ltb, Option, none, some, List, [], ◌∷◌, if◌then◌else◌,
}
use zoa.Base.Int.{ℤ, pos}
use zoa.Base.Text.{Text, codes, decimal}
use zoa.Base.Stamp.{Instant, second}
use zoa.Base.Sql.{Result, ok, err, Db}
use zoa.Reliable.{ClaimedJob, JobCompleter, Effect, Handler}
use zoa.Gateway.Tables.{Tables, Error, lease_lost, message, Json, InboundRow, Action}
use zoa.Gateway.Inbound.{claim_due_inbound, renew_inbound_lease, mark_inbound_retry}
use zoa.Gateway.Complete.{complete_inbound_success, complete_inbound_failure}
use zoa.Gateway.Retry.{is_retryable_inbound_error, inbound_retry_backoff}
use zoa.Gateway.History.{Call, step}

-- inboundPumpJob
pub record PumpJob : Type 0 where
  pub row : InboundRow
  pub reply : Text

-- The database, and the variable that `lastOutboxID` points to.
pub record PumpState : Type 0 where
  pub db : Db Tables Error
  pub last_outbox_id : ℕ

pub data Event : Type 0 where
  tick : Instant → Event
  call : Call → Event

abbrev pub inbound_lease : ℤ
inbound_lease = pos (120 * second)

abbrev pub inbound_max_attempts : ℤ
inbound_max_attempts = pos 3

-- err.Error()
abbrev pub error_text : Error → Text
error_text lease_lost = codes "inbound lease lost"
error_text (message text) = text

abbrev pub is_lease_lost : Error → Bool
is_lease_lost lease_lost = true
is_lease_lost (message text) = false

abbrev pub on_db : {A : Type 0} → Action A → Effect PumpState Error A
on_db m s = let (r, d) = m s.db in (r, record s { db = d })

unfoldable pub claimed_job :
    Result Error (Option InboundRow) → Result Error (Option (ClaimedJob PumpJob))
claimed_job (err e) = err e
claimed_job (ok none) = ok none
claimed_job (ok (some row)) =
    ok (
      some
        (record { id = row.id; attempt = row.attempt; value = record { row = row; reply = [] } }))

unfoldable pub claim_due :
    Json → Text → Instant → Effect PumpState Error (Option (ClaimedJob PumpJob))
unfolding claimed_job
claim_due json session now s =
    let (r, s') = on_db (claim_due_inbound json session now inbound_lease) s in (claimed_job r, s')

-- A renewal that hits no row; after an error the next tick tries again.
abbrev pub lease_gone : Result Error Bool → Bool
lease_gone (ok true) = false
lease_gone (ok false) = true
lease_gone (err e) = false

-- One tick.
unfoldable pub heartbeat : ℕ → ℕ → Instant → Db Tables Error → Bool × Db Tables Error
heartbeat id attempt now d =
    let (r, d') = renew_inbound_lease id attempt now inbound_lease d in (lease_gone r, d')

-- What happens until the processing returns, and whether the lease was seen lost.
unfoldable pub attend : Json → ℕ → ℕ → Bool → List Event → Db Tables Error → Bool × Db Tables Error
unfolding heartbeat
attend json id attempt lost [] d = (lost, d)
attend json id attempt lost (call c ∷ events) d = attend json id attempt lost events (step json c d)
attend json id attempt true (tick now ∷ events) d = attend json id attempt true events d
attend json id attempt false (tick now ∷ events) d =
    let (lost, d') = heartbeat id attempt now d in attend json id attempt lost events d'

-- What Handle returns, from the flag and the outcome of the processing.
abbrev pub handled :
    Bool → Result Error Text → ClaimedJob PumpJob → Option Error × ClaimedJob PumpJob
handled true processed job = (some lease_lost, job)
handled false (err e) job = (some e, job)
handled false (ok reply) job = (none, record job { value = record (job.value) { reply = reply } })

-- `process` is processInboundMessage: the reply to a message, or its error.
unfoldable pub handle :
    Json → (InboundRow → Result Error Text) → List Event → Handler PumpState Error PumpJob
unfolding attend
handle json process events job s =
    let (lost, d) = attend json job.id job.attempt false events s.db in
    (handled lost (process job.value.row) job, record s { db = d })

-- `if lastOutboxID != nil && outboxID > 0 { *lastOutboxID = outboxID }`, when claimed
abbrev pub note : Result Error (ℕ × Bool) → ℕ → ℕ
note (err e) last = last
note (ok (outbox_id, false)) last = last
note (ok (outbox_id, true)) last = if ltb 0 outbox_id then outbox_id else last

abbrev pub no_result : Result Error (ℕ × Bool) → Result Error (Unit {0})
no_result (ok _) = ok tt
no_result (err e) = err e

abbrev pub noted : Result Error (ℕ × Bool) × PumpState → Result Error (Unit {0}) × PumpState
noted (r, s) = (no_result r, record s { last_outbox_id = note r s.last_outbox_id })

unfoldable pub complete : Text → ClaimedJob PumpJob → Instant → Effect PumpState Error (Unit {0})
complete session job now s = noted (
    on_db
      (complete_inbound_success session job.value.row.channel job.value.reply job.id job.attempt
        now)
      s)

-- A retry of a message that is no longer ours is no error.
abbrev pub unit_of : Result Error Bool → Result Error (Unit {0})
unit_of (ok claimed) = ok tt
unit_of (err e) = err e

unfoldable pub retry : ClaimedJob PumpJob → Instant → Error → ℕ → Effect PumpState Error (Unit {0})
retry job now cause delay s =
    let (r, s') =
      on_db (mark_inbound_retry job.id job.attempt (error_text cause) (now + delay)) s in
    (unit_of r, s')

-- fmt.Sprintf("Failed to process message %d: %v", job.ID, cause)
unfoldable pub failure_reply : ℕ → Error → Text
failure_reply id cause =
    codes "Failed to process message " ++ (decimal id ++ (codes ": " ++ error_text cause))

unfoldable pub fail :
    Text → ClaimedJob PumpJob → Instant → Error → Effect PumpState Error (Unit {0})
fail session job now cause s =
    if is_lease_lost cause
    then (ok tt, s)
    else noted (
        on_db
          (complete_inbound_failure session job.value.row.channel
            (codes "Failed to process message "
              ++ (decimal job.id ++ (codes ": " ++ error_text cause)))
            job.id job.attempt now (error_text cause))
          s)

unfoldable pub inbound_job_completer :
    Json
    → (InboundRow → Result Error Text)
    → List Event
    → Text
    → JobCompleter PumpState Error PumpJob
unfolding claim_due handle complete retry fail
inbound_job_completer json process events session = record {
  claim_due = some (claim_due json session);
  handle = some (handle json process events);
  complete = some (complete session);
  retry = some retry;
  fail = some (fail session);
  should_retry = some (λ e. is_retryable_inbound_error (error_text e));
  backoff = some (λ attempt. pos (inbound_retry_backoff attempt));
  max_attempts = inbound_max_attempts;
}
