-- ===== src/Reliable/Settling.antt =====
-- Which callbacks CompleteOne runs, seen by callbacks that record their calls.
use zoa.Base.{
  ℕ, zero, suc, ◌≤◌, ◌<◌, ◌≡◌, ◌≢◌, refl, ◌⊎◌, inl, inr, Bool, true, false, Option, none, some,
  List, [], ◌∷◌, arith, Bool-cases,
}
use zoa.Base.Int.{ℤ, pos}
use zoa.Base.Text.{Text}
use zoa.Base.Stamp.{Instant}
use zoa.Base.Sql.{Result, ok, err}
use zoa.Reliable.Completer.{
  ClaimedJob, JobCompleter, attempts_left, retry_delay, after_handle, after_claim, checked,
  complete_one,
}

pub data Did : Type 0 where
  claimed : Did
  handled completed failed : ℕ → Did
  retried : ℕ → ℕ → Did

module _ {E V : Type 0} (claim : Result E (Option (ClaimedJob V))) (handle : Option E)
    (complete retry fail : Result E (Unit {0})) (should_retry : E → Bool) (backoff : Option (ℕ → ℤ))
    (max_attempts : ℕ) where
  -- Callbacks with these results; the newest call is first.
  abbrev pub recorder : JobCompleter (List Did) E V
  recorder = record {
    claim_due = some (λ now did. (claim, claimed ∷ did));
    handle = some (λ job did. ((handle, job), handled job.id ∷ did));
    complete = some (λ job now did. (complete, completed job.id ∷ did));
    retry = some (λ job now e delay did. (retry, retried job.id delay ∷ did));
    fail = some (λ job now e did. (fail, failed job.id ∷ did));
    should_retry = some should_retry;
    backoff = backoff;
    max_attempts = pos max_attempts;
  }

  -- A job with attempts left; without a maximum there always are.
  abbrev pub MayRetry : ℕ → Type 0
  MayRetry attempt = (max_attempts ≡ 0) ⊎ (attempt < max_attempts)

  -- What was done with the job, behind the claim and the handling.
  abbrev pub Settles : ClaimedJob V → List Did → Type 0
  Settles job did =
      ((handle ≡ none) × (did ≡ completed job.id ∷ handled job.id ∷ claimed ∷ []))
      ⊎ ((e : E) × (handle ≡ some e)
          × (((should_retry e ≡ true)
                × MayRetry job.attempt
                × (did
                    ≡ retried job.id (retry_delay backoff job.attempt)
                      ∷ handled job.id
                      ∷ claimed
                      ∷ []))
              ⊎ (((should_retry e ≡ false) ⊎ ((0 < max_attempts) × (max_attempts ≤ job.attempt)))
                  × (did ≡ failed job.id ∷ handled job.id ∷ claimed ∷ []))))

attempts_left_cases :
    (max attempt : ℕ)
    → ((attempts_left (pos max) attempt ≡ true) × ((max ≡ 0) ⊎ (attempt < max)))
      ⊎ ((attempts_left (pos max) attempt ≡ false) × (0 < max) × (max ≤ attempt))
attempts_left_cases zero attempt = inl (refl, inl refl)
attempts_left_cases (suc n) attempt = ground arith

-- A claimed job is settled exactly once: it is completed if it was handled; retried, with the delay
-- of the backoff, if its error is one to retry and its attempts are not used up; failed otherwise. A
-- claim that fails, or finds nothing, runs no other callback.
pub complete_one-Settles :
    {E V : Type 0} (errorf : Text → E) (claim : Result E (Option (ClaimedJob V)))
    (handle : Option E) (complete retry fail : Result E (Unit {0})) (should_retry : E → Bool)
    (backoff : Option (ℕ → ℤ)) (max_attempts : ℕ) (claim_now now : Instant)
    → let did =
        (complete_one errorf
          (some (recorder claim handle complete retry fail should_retry backoff max_attempts))
          claim_now
          now
          []).1 in
      ((job : ClaimedJob V) × (claim ≡ ok (some job))
        × Settles claim handle complete retry fail should_retry backoff max_attempts job did)
      ⊎ (((job : ClaimedJob V) → claim ≢ ok (some job)) × (did ≡ claimed ∷ []))
unfolding complete_one after_claim after_handle checked
complete_one-Settles errorf (err e) handle complete retry fail should_retry backoff max t now =
    inr (λ job e. cc, refl)
complete_one-Settles errorf (ok none) handle complete retry fail should_retry backoff max t now =
    inr (λ job e. cc, refl)
complete_one-Settles errorf (ok (some job)) none complete retry fail should_retry backoff max t
      now =
    inl (job, refl, inl (refl, refl))
complete_one-Settles errorf (ok (some job)) (some e) complete retry fail should_retry backoff max t
      now =
    inl (
      job,
      refl,
      inr (
        e,
        refl,
        elim (Bool-cases (should_retry e)) [
          | inr never ↦ inr (inl never, rw never refl)
          | inl again ↦ elim (attempts_left_cases max job.attempt) [
            | inl (left, may) ↦ inl (again, may, rw (again, left) refl)
            | inr (used, some_max, over) ↦ inr (inr (some_max, over), rw (again, used) refl)
          ]
        ],
      ),
    )
