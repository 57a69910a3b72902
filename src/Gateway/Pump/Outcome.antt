-- ===== src/Gateway/Pump/Outcome.antt =====
-- How many messages a pump takes, and what it does to a message whose lease it has lost.
use zoa.Base.{
  ℕ, zero, suc, ◌+◌, ◌≤◌, ◌≡◌, refl, true, false, none, some, arith, Bool-cases, inl, inr,
}
use zoa.Base.Int.{ℤ, pos, negsuc}
use zoa.Base.Text.{Text}
use zoa.Base.Sql.{Result, ok, err, Db}
use zoa.Reliable.{Completed, complete_one, after_claim, after_handle}
use zoa.Gateway.Tables.{Tables, Error, Json, InboundRow}
use zoa.Gateway.Inbound.{claim_due_inbound, pending_count}
use zoa.Gateway.Retry.{is_retryable_inbound_error}
use zoa.Gateway.Polling.{clamp}
use zoa.Gateway.History.{run}
use zoa.Gateway.Pump.Job.{
  PumpState, attend, inbound_lease, claim_due, handle, fail, inbound_job_completer,
}
use zoa.Gateway.Pump.Loop.{
  Round, PumpResult, LoopResult, after_one, pump_one, pump_loop, pump_result, result_of, pump,
}

after_one_le :
    (rest : ℕ → ℕ → PumpState → LoopResult) (processed last bound : ℕ)
    (r : Completed PumpState Error)
    → processed ≤ bound
    → ((n : ℕ) (s : PumpState) (a : ℕ × ℕ) → (rest (processed + 1) n s).0 ≡ ok a → a.0 ≤ bound)
    → (a : ℕ × ℕ) → (after_one rest processed last r).0 ≡ ok a
    → a.0 ≤ bound
unfolding after_one
after_one_le rest processed last bound ((outcome, some e), s) le keep a h = absurd (cc)
after_one_le rest processed last bound ((outcome, none), s) le keep a h =
    elim (Bool-cases outcome.claimed) [
      | inl more ↦ keep outcome.job_id s a (rw more at h)
      | inr over ↦ ground arith
    ]

module _ (json : Json) (process : InboundRow → Result Error Text) (rounds : ℕ → Round)
    (session : Text) where
  pump_loop_le :
      (left processed last : ℕ) (s : PumpState) (a : ℕ × ℕ)
      → (pump_loop json process rounds session left processed last s).0 ≡ ok a
      → a.0 ≤ left + processed
  unfolding pump_loop
  pump_loop_le zero processed last s a h = ground arith
  pump_loop_le (suc left) processed last s a h =
      after_one_le (pump_loop json process rounds session left) processed last
        (suc left + processed) (pump_one json process session (rounds processed) s) (omega arith)
        (λ n q b e. omega (arith, pump_loop_le left (processed + 1) n q b e)) a h

  clamp_le : (limit : ℤ) → clamp 1 200 limit ≤ 200
  clamp_le (pos zero) = omega arith
  clamp_le (pos (suc n)) = ground arith
  clamp_le (negsuc n) = omega arith

  result_of_le :
      (bound last out : ℕ) (m : ℕ) (r : Result Error ℕ) (p : PumpResult)
      → m ≤ bound
      → result_of m last out r ≡ ok p
      → p.processed ≤ bound
  result_of_le bound last out m (err e) p le h = absurd (cc)
  result_of_le bound last out m (ok n) p le h = ground arith

  pump_result_le :
      (bound : ℕ) (r : LoopResult) (p : PumpResult)
      → ((a : ℕ × ℕ) → r.0 ≡ ok a → a.0 ≤ bound)
      → (pump_result session r).0 ≡ ok p
      → p.processed ≤ bound
  unfolding pump_result
  pump_result_le bound (err e, s) p keep h = absurd (cc)
  pump_result_le bound (ok (m, last), s) p keep h =
      result_of_le bound last s.last_outbox_id m (pending_count session s.db).0 p
        (keep (m, last) refl) h

  -- A pump that does not fail processes no more messages than the clamped limit, so at most 200.
  pub pump-bounded :
      (limit : ℤ) (d : Db Tables Error) {p : PumpResult}
      → (pump json process rounds session limit d).0 ≡ ok p
      → (p.processed ≤ clamp 1 200 limit) × (p.processed ≤ 200)
  unfolding pump
  pump-bounded limit d {p} h =
      let start : PumpState = record { db = d; last_outbox_id = 0 } in
      let bounded =
        pump_result_le (clamp 1 200 limit)
          (pump_loop json process rounds session (clamp 1 200 limit) 0 0 start) p
          (λ a e. omega (arith, pump_loop_le (clamp 1 200 limit) 0 0 start a e)) h in
      (bounded, omega (arith, bounded, clamp_le limit))

-- A worker that has seen its lease lost while it processed a message settles it without error and
-- without touching the database, whatever the processing returned.
pub pump_one_lost :
    (json : Json) (process : InboundRow → Result Error Text) (session : Text) (round : Round)
    (s : PumpState) {row : InboundRow}
    → (claim_due_inbound json session round.claim_now inbound_lease (run json round.before s.db)).0
      ≡ ok (some row)
    → let d =
        (claim_due_inbound json session round.claim_now inbound_lease
          (run json round.before s.db)).1 in
      (attend json row.id row.attempt false round.events d).0 ≡ true
      → pump_one json process session round s ≡ (
        (record { claimed = true; job_id = row.id; attempt = row.attempt }, none),
        record s { db = (attend json row.id row.attempt false round.events d).1 },
      )
unfolding pump_one complete_one after_claim after_handle inbound_job_completer claim_due handle fail
    is_retryable_inbound_error
pump_one_lost json process session round s {row} won lost = rw (won, lost)
