-- ===== src/Gateway/History/Fencing.antt =====
-- Late calls under an attempt that is over, for hub/util/gateway/state.go.
use zoa.Base.{
  ℕ, zero, suc, update_where_unchanged, ◌+◌, ◌≤◌, ◌<◌, ◌≡◌, refl, ap, ◌∙◌, ◌≢◌, ◌⊎◌, inl, inr, Bool,
  true, false, Option, none, some, List, [], ◌∷◌, arith, All, All-append, All-update_where,
  count_where,
}
use zoa.Base.Int.{ℤ}
use zoa.Base.Text.{Text, trim}
use zoa.Base.Stamp.{Instant, format}
use zoa.Base.Sql.{Db, Result, ok, pure, exec, transaction, ◌>>=◌}
use zoa.Gateway.Complete.{
  close_inbound, succeeded, gave_up, complete_inbound_success, complete_inbound_failure,
}
use zoa.Gateway.Tables.{Inbound, Tables, Error, Json, is_open}
use zoa.Gateway.Inbound.{
  add_inbound, held, lease_or_minute, update_inbound, renewed, retried, some_row,
  renew_inbound_lease, mark_inbound_retry,
}
use zoa.Gateway.Outbox.{add_outbox}
use zoa.Gateway.Closing.{closed, replied, transaction-closed}
use zoa.Gateway.History.Step.{Call, run}
use zoa.Gateway.History.Preserve.{IsPreserved, Advances, Closes, run-Preserved}

-- The row is another message, or has a later attempt, or is closed.
abbrev pub Past : ℕ → ℕ → Inbound → Type 0
Past id attempt r = (r.id ≢ id) ⊎ ((attempt < r.attempt_count) ⊎ (is_open r.status ≡ false))

-- `id` has been given out, and attempt `attempt` of it is over.
abbrev pub Superseded : ℕ → ℕ → Tables → Type 0
Superseded id attempt t = (id ≤ t.inbound_seq) × All (Past id attempt) t.inbound

module _ (id attempt : ℕ) where
  update-Past :
      (p : Inbound → Bool) (f : Inbound → Inbound)
      → Advances p f
      → (r : Inbound) → p r ≡ true
      → Past id attempt r
      → Past id attempt (f r)
  update-Past p f adv r e (inl other) = inl (rw (adv.same_id r) other)
  update-Past p f adv r e (inr (inl later)) = inr (inl (omega (arith, adv.attempts_up r)))
  update-Past p f adv r e (inr (inr shut)) = inr (inr (adv.same_open r e ∙ shut))

  close-Past : (set : Inbound → Inbound) → Closes set → (r : Inbound) → Past id attempt (set r)
  close-Past set closes r = inr (inr (closes.shut r))

  replied-Superseded :
      (n : ℕ) (session channel reply : Text) (to : ℕ) (at : Instant) (t : Tables)
      → Superseded id attempt t
      → Superseded id attempt (replied n session channel reply to at t).1
  unfolding replied add_outbox
  replied-Superseded zero session channel reply to at t h = h
  replied-Superseded (suc n) session channel reply to at t h = h

  Superseded-IsPreserved : IsPreserved (Superseded id attempt)
  unfolding closed add_inbound update_inbound add_outbox
  Superseded-IsPreserved = record {
    added = λ session channel text json at t h.
        (omega arith, All-append (Past id attempt) t.inbound _ h.1 (inl (omega arith), tt));
    updated = λ p f t adv h.
        (h.0, All-update_where (Past id attempt) p f t.inbound (update-Past p f adv) h.1);
    completed = λ set session channel reply id' attempt' at t closes h.
        replied-Superseded _ session channel reply id' at _ (
          h.0,
          All-update_where (Past id attempt) (held id' attempt') set t.inbound
              (λ r e k. close-Past set closes r) h.1,
        );
    announced = λ session channel text at t h. (h.0, h.1);
  }

  Past-not_held : (r : Inbound) → Past id attempt r → held id attempt r ≡ false
  Past-not_held r h = ground arith

  not_held : (rs : List Inbound) → All (Past id attempt) rs → count_where (held id attempt) rs ≡ 0
  not_held [] h = refl
  not_held (r ∷ rs) h = rw (Past-not_held r h.0, not_held rs h.1)

-- A call came too late: it reports no success, and changes no table.
abbrev pub Late : {A : Type 0} → (A → Type 0) → Tables → Result Error A × Db Tables Error → Type 0
Late {A} Won t r = ((a : A) → r.0 ≡ ok a → ¬ Won a) × (r.1.tables ≡ t)

abbrev pub AllLate : ℕ → ℕ → Db Tables Error → Type 0
AllLate id attempt d =
    ((session channel reply : Text) (at : Instant)
      → Late (λ a. a.1 ≡ true) d.tables
          (complete_inbound_success session channel reply id attempt at d))
    × ((session channel reply : Text) (at : Instant) (error : Text)
        → Late (λ a. a.1 ≡ true) d.tables
            (complete_inbound_failure session channel reply id attempt at error d))
    × ((error : Text) (next : Instant)
        → Late (λ a. a ≡ true) d.tables (mark_inbound_retry id attempt error next d))
    × ((now : Instant) (lease : ℤ)
        → Late (λ a. a ≡ true) d.tables (renew_inbound_lease id attempt now lease d))

closed_none :
    (set : Inbound → Inbound) (session channel reply : Text) (id attempt : ℕ) (at : Instant)
    (t : Tables)
    → count_where (held id attempt) t.inbound ≡ 0
    → closed set session channel reply id attempt at t ≡ ((0, false), t)
unfolding closed update_inbound
closed_none set session channel reply id attempt at t none_held =
    rw (none_held, update_where_unchanged (held id attempt) set t.inbound none_held)

closed-Late :
    (set : Inbound → Inbound) (session channel reply : Text) (id attempt : ℕ) (at : Instant)
    (d : Db Tables Error)
    → count_where (held id attempt) d.tables.inbound ≡ 0
    → Late
        (λ a. a.1 ≡ true)
        d.tables
        (transaction (close_inbound set session channel reply id attempt at) d)
closed-Late set session channel reply id attempt at d none_held =
    elim (transaction-closed set session channel reply id attempt at d) [
      | inl (e, p, q) ↦ (λ a h w. cc, q)
      | inr (p, q) ↦
          let none_closed =
            closed_none set session channel reply id attempt at d.tables none_held in
          (
            λ a h w. ground (arith, none_closed),
            q ∙ ap (λ (x : (ℕ × Bool) × Tables). x.1) none_closed,
          )
    ]

flag-Late :
    (f : Inbound → Inbound) (id attempt : ℕ) (t : Tables) (fs : List (Option Error))
    → count_where (held id attempt) t.inbound ≡ 0
    → Late
        (λ a. a ≡ true)
        t
        ((exec (update_inbound (held id attempt) f) >>= λ n. pure (some_row n))
          (record { tables = t; faults = fs }))
unfolding exec update_inbound
flag-Late f id attempt t [] none_held =
    rw (none_held, update_where_unchanged (held id attempt) f t.inbound none_held)
      (λ a h w. cc, refl)
flag-Late f id attempt t (none ∷ fs) none_held =
    rw (none_held, update_where_unchanged (held id attempt) f t.inbound none_held)
      (λ a h w. cc, refl)
flag-Late f id attempt t (some e ∷ fs) none_held = (λ a h w. cc, refl)

Superseded-AllLate :
    (id attempt : ℕ) (d : Db Tables Error) → Superseded id attempt d.tables → AllLate id attempt d
unfolding complete_inbound_success complete_inbound_failure mark_inbound_retry renew_inbound_lease
Superseded-AllLate id attempt d h =
    let gone = not_held id attempt d.tables.inbound h.1 in
    (
      λ session channel reply at.
          closed-Late (succeeded (format at)) session channel reply id attempt at d gone,
      λ session channel reply at error.
          closed-Late (gave_up (format at) (trim error)) session channel reply id attempt at d gone,
      λ error next.
          flag-Late (retried (trim error) (format next)) id attempt d.tables d.faults gone,
      λ now lease.
          flag-Late (renewed (format (now + lease_or_minute lease))) id attempt d.tables d.faults
            gone,
    )

-- Once an attempt at a known message is over, every later completion, retry and renewal under that
-- attempt, after any history, reports no success and changes no table.
pub fenced_after :
    (json : Json) (cs : List Call) (d : Db Tables Error) (id attempt : ℕ)
    → Superseded id attempt d.tables
    → AllLate id attempt (run json cs d)
fenced_after json cs d id attempt h =
    Superseded-AllLate id attempt (run json cs d)
      (run-Preserved (Superseded id attempt) (Superseded-IsPreserved id attempt) json cs d h)
