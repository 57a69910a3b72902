-- ===== src/Reliable/Completer.antt =====
-- The job completer over states S and errors E. A callback is an action on the state; one that may
-- be nil is an Option. Logging and the context are left out.
use zoa.Base.{ℕ, zero, suc, Bool, true, false, ◌&&◌, Option, none, some, ltb, if◌then◌else◌}
use zoa.Base.Int.{ℤ, pos, negsuc, pos_part}
use zoa.Base.Text.{Text, codes}
use zoa.Base.Stamp.{Instant}
use zoa.Base.Sql.{Result, ok, err}

pub record ClaimedJob (V : Type 0) : Type 0 where
  pub id : ℕ
  pub attempt : ℕ
  pub value : V

pub record JobOutcome : Type 0 where
  pub claimed : Bool
  pub job_id : ℕ
  pub attempt : ℕ

abbrev pub no_outcome : JobOutcome
no_outcome = record { claimed = false; job_id = 0; attempt = 0 }

abbrev pub Effect : Type 0 → Type 0 → Type 0 → Type 0
Effect S E A = S → Result E A × S

-- Handle writes through its pointer to the job, so the job comes back, also beside an error.
abbrev pub Handler : Type 0 → Type 0 → Type 0 → Type 0
Handler S E V = ClaimedJob V → S → (Option E × ClaimedJob V) × S

-- type JobCompleter
pub record JobCompleter (S E V : Type 0) : Type 0 where
  pub claim_due : Option (Instant → Effect S E (Option (ClaimedJob V)))
  pub handle : Option (Handler S E V)
  pub complete : Option (ClaimedJob V → Instant → Effect S E (Unit {0}))
  pub retry : Option (ClaimedJob V → Instant → E → ℕ → Effect S E (Unit {0}))
  pub fail : Option (ClaimedJob V → Instant → E → Effect S E (Unit {0}))
  pub should_retry : Option (E → Bool)
  pub backoff : Option (ℕ → ℤ)
  pub max_attempts : ℤ

-- The callbacks that must not be nil, once that is checked.
pub record Callbacks (S E V : Type 0) : Type 0 where
  pub claim_due : Instant → Effect S E (Option (ClaimedJob V))
  pub handle : Handler S E V
  pub complete : ClaimedJob V → Instant → Effect S E (Unit {0})
  pub retry : ClaimedJob V → Instant → E → ℕ → Effect S E (Unit {0})
  pub fail : ClaimedJob V → Instant → E → Effect S E (Unit {0})
  pub should_retry : E → Bool
  pub backoff : Option (ℕ → ℤ)
  pub max_attempts : ℤ

infixl 5 ◌>>=◌
abbrev ◌>>=◌ : {E A B : Type 0} → Result E A → (A → Result E B) → Result E B
ok a >>= f = f a
err e >>= f = err e

abbrev required : {A : Type 0} → Option A → Text → Result Text A
required none text = err text
required (some a) text = ok a

-- The checks at the head of CompleteOne, in their order.
unfoldable pub checked : {S E V : Type 0} → JobCompleter S E V → Result Text (Callbacks S E V)
checked c = do
  claim_due ← required c.claim_due (codes "claim due callback is nil")
  handle ← required c.handle (codes "handle callback is nil")
  complete ← required c.complete (codes "complete callback is nil")
  retry ← required c.retry (codes "retry callback is nil")
  fail ← required c.fail (codes "fail callback is nil")
  should_retry ← required c.should_retry (codes "should retry callback is nil")
  ok (record {
    claim_due = claim_due;
    handle = handle;
    complete = complete;
    retry = retry;
    fail = fail;
    should_retry = should_retry;
    backoff = c.backoff;
    max_attempts = c.max_attempts;
  })

-- `c.MaxAttempts <= 0 || job.Attempt < c.MaxAttempts`
abbrev pub attempts_left : ℤ → ℕ → Bool
attempts_left (pos zero) attempt = true
attempts_left (pos (suc n)) attempt = ltb attempt (suc n)
attempts_left (negsuc n) attempt = true

-- The delay, 0 where Backoff is nil or its result negative.
abbrev pub retry_delay : Option (ℕ → ℤ) → ℕ → ℕ
retry_delay none attempt = 0
retry_delay (some backoff) attempt = pos_part (backoff attempt)

-- What CompleteOne returns: the outcome, also beside an error.
abbrev pub Completed : Type 0 → Type 0 → Type 0
Completed S E = (JobOutcome × Option E) × S

abbrev pub error_of : {E : Type 0} → Result E (Unit {0}) → Option E
error_of (ok _) = none
error_of (err e) = some e

abbrev pub settled : {S E : Type 0} → JobOutcome → Result E (Unit {0}) × S → Completed S E
settled outcome r = ((outcome, error_of r.0), r.1)

module _ {S E V : Type 0} where
  -- After Handle. `now` is the clock at that point.
  unfoldable pub after_handle :
      Callbacks S E V → JobOutcome → ClaimedJob V → Instant → Option E → S → Completed S E
  after_handle c outcome job now none d = settled outcome (c.complete job now d)
  after_handle c outcome job now (some e) d =
      if c.should_retry e && attempts_left c.max_attempts job.attempt
      then settled outcome (c.retry job now e (retry_delay c.backoff job.attempt) d)
      else settled outcome (c.fail job now e d)

  unfoldable pub after_claim :
      Callbacks S E V → Instant → Result E (Option (ClaimedJob V)) × S → Completed S E
  unfolding after_handle
  after_claim c now (err e, d) = ((no_outcome, some e), d)
  after_claim c now (ok none, d) = ((no_outcome, none), d)
  after_claim c now (ok (some job), d) =
      let ((error, job'), d') = c.handle job d in
      after_handle c (record { claimed = true; job_id = job.id; attempt = job.attempt }) job' now
        error d'

  -- `errorf` makes an error of a text. The two instants are the clock's before ClaimDue and after
  -- Handle.
  unfoldable pub complete_one :
      (Text → E) → Option (JobCompleter S E V) → Instant → Instant → S → Completed S E
  unfolding checked after_claim
  complete_one errorf none claim_now now d =
      ((no_outcome, some (errorf (codes "job completer is nil"))), d)
  complete_one errorf (some c) claim_now now d = elim (checked c) [
    | err text ↦ ((no_outcome, some (errorf text)), d)
    | ok callbacks ↦ after_claim callbacks now (callbacks.claim_due claim_now d)
  ]
