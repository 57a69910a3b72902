-- ===== src/Gateway/History/Preserve.antt =====
-- Properties of the tables of hub/util/gateway/state.go under histories of calls.
use zoa.Base.{
  ℕ, ◌≡◌, refl, inl, inr, Bool, true, false, ◌+◌, ◌==◌, ◌≤◌, if◌then◌else◌, select_first, Option,
  none, some, Option-cases, List, [], ◌∷◌, arith,
}
use zoa.Base.Int.{ℤ}
use zoa.Base.Text.{Text, trim}
use zoa.Base.Stamp.{Instant, Stamp, format}
use zoa.Base.Sql.{Db, pure, exec, query, transaction, ◌>>=◌}
use zoa.Base.Sql.Laws.{Keeps, pure-Keeps, exec-Keeps, query-Keeps, >>=-Keeps, transaction-Keeps}
use zoa.Gateway.Tables.{Inbound, Tables, Error, Fields, Json, Action, is_open}
use zoa.Gateway.Inbound.{
  fields_or_empty, claimable, claimed, held, renewed, retried, in_line, lease_or_minute, some_row,
  add_inbound, update_inbound, insert_inbound, claim_head, claim_due_inbound_id,
  renew_inbound_lease, mark_inbound_retry,
}
use zoa.Gateway.Outbox.{add_outbox, insert_outbox}
use zoa.Gateway.Complete.{
  close_inbound, succeeded, gave_up, complete_inbound_success, complete_inbound_failure,
}
use zoa.Gateway.Closing.{closed, transaction-closed}
use zoa.Gateway.History.Step.{
  Call, receive, claim, renew, retry, succeed, give_up, announce, step, run,
}

-- An UPDATE that keeps ids, turns no open message into a closed one or back, takes hold of open
-- messages only and lowers no attempt count.
pub record Advances (p : Inbound → Bool) (f : Inbound → Inbound) : Type 0 where
  pub same_id : (r : Inbound) → (f r).id ≡ r.id
  pub same_open : (r : Inbound) → p r ≡ true → is_open (f r).status ≡ is_open r.status
  pub attempts_up : (r : Inbound) → r.attempt_count ≤ (f r).attempt_count

-- The assignments of a completion.
pub record Closes (set : Inbound → Inbound) : Type 0 where
  pub same_id : (r : Inbound) → (set r).id ≡ r.id
  pub shut : (r : Inbound) → is_open (set r).status ≡ false

pub record IsPreserved (P : Tables → Type 0) : Type 0 where
  pub added :
      (session channel text json : Text) (at : Instant) (t : Tables)
      → P t
      → P (add_inbound session channel text json at t).1
  pub updated :
      (p : Inbound → Bool) (f : Inbound → Inbound) (t : Tables)
      → Advances p f
      → P t
      → P (update_inbound p f t).1
  pub completed :
      (set : Inbound → Inbound) (session channel reply : Text) (id attempt : ℕ) (at : Instant)
      (t : Tables)
      → Closes set
      → P t
      → P (closed set session channel reply id attempt at t).1
  pub announced :
      (session channel text : Text) (at : Instant) (t : Tables)
      → P t
      → P (add_outbox session channel text none at t).1

module _ (P : Tables → Type 0) (K : IsPreserved P) where
  insert_inbound-Keeps :
      (json : Json) (session channel text : Text) (input : Option Fields) (at : Instant)
      → Keeps P (insert_inbound json session channel text input at)
  unfolding insert_inbound
  insert_inbound-Keeps json session channel text input at d v =
      elim (Option-cases (json.marshal (fields_or_empty input))) [
        | inl e ↦ rw (e, insert_inbound) v
        | inr (raw, e) ↦
            rw (e, insert_inbound)
              (exec-Keeps P (add_inbound session (trim channel) text raw at)
                (K.added session (trim channel) text raw at) d v)
      ]

  update-Keeps :
      (p : Inbound → Bool) (f : Inbound → Inbound)
      → Advances p f
      → Keeps {E = Error} P (exec (update_inbound p f))
  update-Keeps p f adv = exec-Keeps P (update_inbound p f) (λ t v. K.updated p f t adv v)

  claim_head-Keeps :
      (now : Instant) (lease : ℕ) (head : Option Inbound) → Keeps P (claim_head now lease head)
  unfolding claim_head
  claim_head-Keeps now lease none = pure-Keeps {A = ℕ} P 0
  claim_head-Keeps now lease (some r) =
      >>=-Keeps P (exec (update_inbound (claimable r.id (format now)) (claimed until)))
        (λ n. pure (if n == 0 then 0 else r.id))
        (update-Keeps (claimable r.id (format now)) (claimed until) (record {
          same_id = λ x. refl;
          same_open = λ x e. ground arith;
          attempts_up = λ x. omega arith;
        }))
        (λ n. pure-Keeps P (if n == 0 then 0 else r.id))
    where
      until : Stamp
      until = format (now + lease)

  claim_due_inbound_id-Keeps :
      (session : Text) (now : Instant) (lease : ℤ)
      → Keeps P (claim_due_inbound_id session now lease)
  unfolding claim_due_inbound_id
  claim_due_inbound_id-Keeps session now lease =
      transaction-Keeps P (head >>= claim_head now (lease_or_minute lease)) (
        >>=-Keeps P head (claim_head now (lease_or_minute lease))
          (query-Keeps P (λ t. select_first (in_line session) t.inbound))
          (claim_head-Keeps now (lease_or_minute lease)))
    where
      head : Action (Option Inbound)
      head = query (λ t. select_first (in_line session) t.inbound)

  flag-Keeps : (m : Action ℕ) → Keeps P m → Keeps P (m >>= λ n. pure (some_row n))
  flag-Keeps m keep = >>=-Keeps P m (λ n. pure (some_row n)) keep (λ n. pure-Keeps P (some_row n))

  close-Keeps :
      (set : Inbound → Inbound) (session channel reply : Text) (id attempt : ℕ) (at : Instant)
      → Closes set
      → Keeps P (transaction (close_inbound set session channel reply id attempt at))
  close-Keeps set session channel reply id attempt at closes d v =
      elim (transaction-closed set session channel reply id attempt at d) [
        | inl (e, p, q) ↦ rw q v
        | inr (p, q) ↦ rw q (K.completed set session channel reply id attempt at d.tables closes v)
      ]

  -- One operation.
  pub step-Preserved :
      (json : Json) (c : Call) (d : Db Tables Error) → P d.tables → P (step json c d).tables
  unfolding step renew_inbound_lease mark_inbound_retry insert_outbox complete_inbound_success
      complete_inbound_failure
  step-Preserved json (receive session channel text input at) d v =
      insert_inbound-Keeps json session channel text input at d v
  step-Preserved json (claim session now lease) d v =
      claim_due_inbound_id-Keeps session now lease d v
  step-Preserved json (renew id attempt now lease) d v =
      flag-Keeps
        (exec (update_inbound (held id attempt) (renewed (format (now + lease_or_minute lease)))))
        (update-Keeps (held id attempt) (renewed (format (now + lease_or_minute lease)))
          (record { same_id = λ x. refl; same_open = λ x e. refl; attempts_up = λ x. omega arith }))
        d v
  step-Preserved json (retry id attempt error next) d v =
      flag-Keeps (exec (update_inbound (held id attempt) (retried (trim error) (format next))))
        (update-Keeps (held id attempt) (retried (trim error) (format next)) (record {
          same_id = λ x. refl;
          same_open = λ x e. ground arith;
          attempts_up = λ x. omega arith;
        }))
        d v
  step-Preserved json (succeed session channel reply id attempt at) d v =
      close-Keeps (succeeded (format at)) session channel reply id attempt at
        (record { same_id = λ x. refl; shut = λ x. refl }) d v
  step-Preserved json (give_up session channel reply id attempt at error) d v =
      close-Keeps (gave_up (format at) (trim error)) session channel reply id attempt at
        (record { same_id = λ x. refl; shut = λ x. refl }) d v
  step-Preserved json (announce session channel text at) d v =
      exec-Keeps P (add_outbox session (trim channel) text none at)
        (K.announced session (trim channel) text at) d v

  pub run-Preserved :
      (json : Json) (cs : List Call) (d : Db Tables Error) → P d.tables → P (run json cs d).tables
  unfolding run
  run-Preserved json [] d v = v
  run-Preserved json (c ∷ cs) d v =
      run-Preserved json cs (step json c d) (step-Preserved json c d v)
