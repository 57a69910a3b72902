-- ===== src/Gateway/Closing.antt =====
-- What completeInboundSuccess and completeInboundFailure of hub/util/gateway/state.go do to the
-- tables.
use zoa.Base.{
  ℕ, zero, suc, ◌+◌, ◌≤◌, ◌<◌, ◌≡◌, refl, ap, ◌∙◌, ◌≢◌, ◌⊎◌, inl, inr, Bool, true, false, Option,
  none, some, List, [], ◌∷◌, ◌++◌, ◌==◌, if◌then◌else◌, arith, All, All-append, count_where,
  count_where-append, update_where, update_where_unchanged, Bool-cases,
}
use zoa.Base.Text.{Text, trim}
use zoa.Base.Stamp.{Instant}
use zoa.Base.Sql.{Db, ok, err, exec, transaction}
use zoa.Base.Sql.Laws.{transaction_cases}
use zoa.Gateway.Tables.{Inbound, Outbox, Tables, Error, is_open}
use zoa.Gateway.Inbound.{held, update_inbound}
use zoa.Gateway.Outbox.{add_outbox, tx_insert_outbox}
use zoa.Gateway.Complete.{write_reply, close_inbound}
use zoa.Gateway.Invariant.{Ids, answers, Answered, Known, Inv, Ids-update_where, OutboxIds-append}

-- The effect of `write_reply` on the tables, as a function.
unfoldable pub replied : ℕ → Text → Text → Text → ℕ → Instant → Tables → (ℕ × Bool) × Tables
replied zero session channel reply id at t = ((0, false), t)
replied (suc n) session channel reply id at t =
    ((suc t.outbox_seq, true), (add_outbox session (trim channel) reply (some id) at t).1)

-- The effect of a completion that succeeds.
unfoldable pub closed :
    (Inbound → Inbound) → Text → Text → Text → ℕ → ℕ → Instant → Tables → (ℕ × Bool) × Tables
unfolding replied
closed set session channel reply id attempt at t =
    let (affected, t') = update_inbound (held id attempt) set t in
    replied affected session channel reply id at t'

module _ (session channel reply : Text) (id : ℕ) (at : Instant) where
  write_reply-replied :
      (n : ℕ) (t : Tables) (fs : List (Option Error)) {a : ℕ × Bool}
      → let r = write_reply n session channel reply id at (record { tables = t; faults = fs }) in
        r.0 ≡ ok a
        → (a ≡ (replied n session channel reply id at t).0)
          × (r.1.tables ≡ (replied n session channel reply id at t).1)
  unfolding write_reply replied tx_insert_outbox add_outbox exec
  write_reply-replied zero t fs h = ground arith
  write_reply-replied (suc n) t [] h = ground arith
  write_reply-replied (suc n) t (none ∷ fs) h = ground arith
  write_reply-replied (suc n) t (some e ∷ fs) h = ground arith

module _ (set : Inbound → Inbound) (session channel reply : Text) (id attempt : ℕ)
    (at : Instant) where
  close_inbound-closed :
      (t : Tables) (fs : List (Option Error)) {a : ℕ × Bool}
      → let r =
          close_inbound set session channel reply id attempt at
            (record { tables = t; faults = fs }) in
        r.0 ≡ ok a
        → (a ≡ (closed set session channel reply id attempt at t).0)
          × (r.1.tables ≡ (closed set session channel reply id attempt at t).1)
  unfolding close_inbound closed exec
  close_inbound-closed t [] h = write_reply-replied session channel reply id at _ _ [] h
  close_inbound-closed t (none ∷ fs) h = write_reply-replied session channel reply id at _ _ fs h
  close_inbound-closed t (some e ∷ fs) h = cc

  -- A completion fails and changes no table, or it has its whole effect.
  pub transaction-closed :
      (d : Db Tables Error)
      → let r = transaction (close_inbound set session channel reply id attempt at) d in
        ((e : Error) × (r.0 ≡ err e) × (r.1.tables ≡ d.tables))
        ⊎ ((r.0 ≡ ok (closed set session channel reply id attempt at d.tables).0)
            × (r.1.tables ≡ (closed set session channel reply id attempt at d.tables).1))
  transaction-closed d =
      elim (transaction_cases (close_inbound set session channel reply id attempt at) d) [
        | inl failed ↦ inl failed
        | inr (fs, a, (ran, q, r)) ↦
            let c = close_inbound-closed d.tables fs ran in inr (q ∙ ap ok c.0, r ∙ c.1)
      ]

count_answers-append :
    (x id : ℕ) (o : Outbox) (os : List Outbox)
    → o.in_reply_to ≡ some id
    → count_where (answers x) (os ++ (o ∷ []))
      ≡ count_where (answers x) os + (if id == x then 1 else 0)
count_answers-append x id o os e = ground (arith, count_where-append (answers x) os (o ∷ []))

-- Rows beyond `id` are not touched, and gain no reply.
later-Answered :
    (set : Inbound → Inbound) (id attempt : ℕ) (o : Outbox) (os : List Outbox)
    → o.in_reply_to ≡ some id
    → (lo : ℕ) (rs : List Inbound) (hi : ℕ) → id ≤ lo
    → Ids lo rs hi
    → All (Answered os) rs
    → All (Answered (os ++ (o ∷ []))) (update_where (held id attempt) set rs)
later-Answered set id attempt o os e lo [] hi le ids h = tt
later-Answered set id attempt o os e lo (r ∷ rs) hi le ids h = (
  ground (arith, count_answers-append r.id id o os e),
  later-Answered set id attempt o os e r.id rs hi (omega arith) ids.1 h.1,
)

-- A row that is held stands beyond `lo`.
held_beyond :
    (id attempt lo : ℕ) (rs : List Inbound) (hi : ℕ)
    → Ids lo rs hi
    → count_where (held id attempt) rs ≢ 0
    → lo < id
held_beyond id attempt lo [] hi ids h = absurd (h refl)
held_beyond id attempt lo (r ∷ rs) hi ids h = ground (arith, held_beyond id attempt r.id rs hi)

Ids-le : (lo : ℕ) (rs : List Inbound) (hi : ℕ) → Ids lo rs hi → lo ≤ hi
Ids-le lo [] hi ids = ids
Ids-le lo (r ∷ rs) hi ids = omega (arith, Ids-le r.id rs hi ids.1)

held_known :
    (id attempt lo : ℕ) (rs : List Inbound) (hi : ℕ)
    → Ids lo rs hi
    → count_where (held id attempt) rs ≢ 0
    → id ≤ hi
held_known id attempt lo [] hi ids h = absurd (h refl)
held_known id attempt lo (r ∷ rs) hi ids h =
    ground (arith, held_known id attempt r.id rs hi ids.1, Ids-le r.id rs hi ids.1)

-- The one row that is held is closed and gains the reply.
held-Answered :
    (set : Inbound → Inbound) (id attempt : ℕ) (o : Outbox) (os : List Outbox)
    → o.in_reply_to ≡ some id
    → ((r : Inbound) → (set r).id ≡ r.id)
    → ((r : Inbound) → is_open (set r).status ≡ false)
    → (lo : ℕ) (rs : List Inbound) (hi : ℕ) → Ids lo rs hi
    → count_where (held id attempt) rs ≢ 0
    → All (Answered os) rs
    → All (Answered (os ++ (o ∷ []))) (update_where (held id attempt) set rs)
held-Answered set id attempt o os e same shut lo [] hi ids n h = tt
held-Answered set id attempt o os e same shut lo (r ∷ rs) hi ids n h =
    elim (Bool-cases (held id attempt r)) [
      | inl mine ↦ rw mine (
        rw (same r, shut r) (ground (arith, count_answers-append r.id id o os e)),
        later-Answered set id attempt o os e r.id rs hi (ground arith) ids.1 h.1,
      )
      | inr not_mine ↦ rw not_mine (
        ground (arith, h.0, held_beyond id attempt r.id rs hi, count_answers-append r.id id o os e),
        held-Answered set id attempt o os e same shut r.id rs hi ids.1 (ground arith) h.1,
      )
    ]

module _ (set : Inbound → Inbound) (session channel reply : Text) (id attempt : ℕ) (at : Instant)
    (same : (r : Inbound) → (set r).id ≡ r.id)
    (shut : (r : Inbound) → is_open (set r).status ≡ false) where
  replied-Inv :
      (n : ℕ) (t : Tables)
      → count_where (held id attempt) t.inbound ≡ n
      → Inv t
      → Inv (replied n session channel reply id at (update_inbound (held id attempt) set t).1).1
  unfolding replied update_inbound add_outbox
  replied-Inv zero t e v = rw (update_where_unchanged (held id attempt) set t.inbound e) (record {
    inbound_ids = v.inbound_ids;
    outbox_ids = v.outbox_ids;
    answered = v.answered;
    known = v.known;
  })
  replied-Inv (suc n) t e v = record {
    inbound_ids =
        Ids-update_where (held id attempt) set 0 t.inbound t.inbound_seq same v.inbound_ids;
    outbox_ids = OutboxIds-append 0 t.outbox t.outbox_seq _ refl v.outbox_ids;
    answered =
        held-Answered set id attempt _ t.outbox refl same shut 0 t.inbound t.inbound_seq
          v.inbound_ids (omega arith) v.answered;
    known =
        All-append (Known t.inbound_seq) t.outbox _ v.known
          (held_known id attempt 0 t.inbound t.inbound_seq v.inbound_ids (omega arith), tt);
  }

  pub closed-Inv : (t : Tables) → Inv t → Inv (closed set session channel reply id attempt at t).1
  unfolding closed update_inbound
  closed-Inv t v = replied-Inv (count_where (held id attempt) t.inbound) t refl v
