-- ===== src/Gateway/Claiming.antt =====
-- What claimDueInboundID of hub/util/gateway/state.go claims.
use zoa.Base.{
  ℕ, ◌+◌, ◌≤◌, ◌<◌, ◌≡◌, refl, ap, subst, sym, ◌∙◌, ◌≢◌, ◌⊎◌, inl, inr, true, false, Option, none,
  some, List, [], ◌∷◌, ◌==◌, if◌then◌else◌, arith, All, count_where, select_first, update_where,
  Bool-cases, Option-cases,
}
use zoa.Base.Int.{ℤ}
use zoa.Base.Text.{Text}
use zoa.Base.Stamp.{Instant, Stamp, format}
use zoa.Base.Sql.{Db, Result, ok, err, exec, query, ◌>>=◌}
use zoa.Base.Sql.Laws.{transaction_cases}
use zoa.Gateway.Tables.{Inbound, Tables, Error}
use zoa.Gateway.Inbound.{
  in_line, claimable, claimed, lease_or_minute, update_inbound, claim_head, claim_due_inbound_id,
}
use zoa.Gateway.Invariant.{Ids, Inv}

-- Claiming `head`, as a function on the tables.
claimed_head : Instant → ℕ → Option Inbound → Tables → ℕ × Tables
claimed_head now lease none t = (0, t)
claimed_head now lease (some r) t =
    let (affected, t') =
      update_inbound (claimable r.id (format now)) (claimed (format (now + lease))) t in
    (if affected == 0 then 0 else r.id, t')

-- The effect of a claim that does not fail.
pub claimed_tables : Text → Instant → ℤ → Tables → ℕ × Tables
unfolding claimed_head
claimed_tables session now lease t =
    claimed_head now (lease_or_minute lease) (select_first (in_line session) t.inbound) t

module _ (now : Instant) (lease : ℕ) where
  claim_head-claimed :
      (head : Option Inbound) (t : Tables) (fs : List (Option Error)) {id : ℕ}
      → let r = claim_head now lease head (record { tables = t; faults = fs }) in
        r.0 ≡ ok id
        → (id ≡ (claimed_head now lease head t).0)
          × (r.1.tables ≡ (claimed_head now lease head t).1)
  unfolding claim_head claimed_head exec
  claim_head-claimed none t fs h = ground arith
  claim_head-claimed (some r) t [] h = ground arith
  claim_head-claimed (some r) t (none ∷ fs) h = ground arith
  claim_head-claimed (some r) t (some e ∷ fs) h = cc

claim_body : Text → Instant → ℤ → Db Tables Error → Result Error ℕ × Db Tables Error
claim_body session now lease =
    query (λ t. select_first (in_line session) t.inbound) >>= claim_head now (lease_or_minute lease)

claim_body-claimed :
    (session : Text) (now : Instant) (lease : ℤ) (t : Tables) (fs : List (Option Error)) {id : ℕ}
    → let r = claim_body session now lease (record { tables = t; faults = fs }) in
      r.0 ≡ ok id
      → (id ≡ (claimed_tables session now lease t).0)
        × (r.1.tables ≡ (claimed_tables session now lease t).1)
unfolding claim_body claimed_tables query
claim_body-claimed session now lease t [] h = claim_head-claimed now _ _ t [] h
claim_body-claimed session now lease t (none ∷ fs) h = claim_head-claimed now _ _ t fs h
claim_body-claimed session now lease t (some e ∷ fs) h = cc

-- A claim fails and changes no table, or has its whole effect.
pub claim_due_inbound_id-claimed :
    (session : Text) (now : Instant) (lease : ℤ) (d : Db Tables Error)
    → let r = claim_due_inbound_id session now lease d in
      ((e : Error) × (r.0 ≡ err e) × (r.1.tables ≡ d.tables))
      ⊎ ((r.0 ≡ ok (claimed_tables session now lease d.tables).0)
          × (r.1.tables ≡ (claimed_tables session now lease d.tables).1))
unfolding claim_due_inbound_id claim_body
claim_due_inbound_id-claimed session now lease d =
    elim (transaction_cases (claim_body session now lease) d) [
      | inl failed ↦ inl failed
      | inr (fs, a, (ran, q, r)) ↦
          let c = claim_body-claimed session now lease d.tables fs ran in
          inr (q ∙ ap ok c.0, r ∙ c.1)
    ]

-- Not in the session's line, or not before `id`.
abbrev pub NotAhead : Text → ℕ → Inbound → Type 0
NotAhead session id x = (in_line session x ≡ false) ⊎ (id ≤ x.id)

later-NotAhead :
    (session : Text) (id lo : ℕ) (rs : List Inbound) (hi : ℕ)
    → id ≤ lo
    → Ids lo rs hi
    → All (NotAhead session id) rs
later-NotAhead session id lo [] hi le ids = tt
later-NotAhead session id lo (x ∷ rs) hi le ids =
    (inr (omega arith), later-NotAhead session id x.id rs hi (omega arith) ids.1)

-- The head of the line is the open message of the session with the least id.
pub head_first :
    (session : Text) (lo : ℕ) (rs : List Inbound) (hi : ℕ) (r : Inbound)
    → Ids lo rs hi
    → select_first (in_line session) rs ≡ some r
    → (lo < r.id) × All (NotAhead session r.id) rs
head_first session lo [] hi r ids h = absurd (cc)
head_first session lo (x ∷ rs) hi r ids h = elim (Bool-cases (in_line session x)) [
  | inl e ↦
      let same : x ≡ r = ground arith in
      rw (← same) (
        ids.0,
        (
          inr (omega arith),
          subst (λ k. All (NotAhead session k) rs) (ap (λ (y : Inbound). y.id) same)
              (later-NotAhead session x.id x.id rs hi (omega arith) ids.1),
        ),
      )
  | inr e ↦
      let rest = head_first session x.id rs hi r ids.1 (rw e at h) in
      (omega (arith, rest.0), (inl e, rest.1))
]

none_later :
    (id : ℕ) (now : Stamp) (lo : ℕ) (rs : List Inbound) (hi : ℕ)
    → id ≤ lo
    → Ids lo rs hi
    → count_where (claimable id now) rs ≡ 0
none_later id now lo [] hi le ids = refl
none_later id now lo (x ∷ rs) hi le ids =
    ground (arith, none_later id now x.id rs hi (omega arith) ids.1)

-- If the UPDATE finds a row, it is the head, and the head is the row that it changes.
head_claimed :
    (session : Text) (now until : Stamp) (lo : ℕ) (rs : List Inbound) (hi : ℕ) (r : Inbound)
    → Ids lo rs hi
    → select_first (in_line session) rs ≡ some r
    → count_where (claimable r.id now) rs ≢ 0
    → (claimable r.id now r ≡ true)
      × (select_first (λ x. x.id == r.id) (update_where (claimable r.id now) (claimed until) rs)
          ≡ some (claimed until r))
head_claimed session now until lo [] hi r ids h n = absurd (n refl)
head_claimed session now until lo (x ∷ rs) hi r ids h n = elim (Bool-cases (in_line session x)) [
  | inl e ↦ ground (arith, none_later x.id now x.id rs hi (omega arith) ids.1)
  | inr e ↦ ground (
    arith,
    head_first session x.id rs hi r ids.1,
    head_claimed session now until x.id rs hi r ids.1,
  )
]

-- What a claim of `id` means for the tables before it and after it.
abbrev pub TakesHead : Text → Instant → ℤ → ℕ → Tables → Tables → Type 0
TakesHead session now lease id t t' =
    (r : Inbound) × (r.id ≡ id)
    × (select_first (in_line session) t.inbound ≡ some r)
    × All (NotAhead session id) t.inbound
    × (claimable id (format now) r ≡ true)
    × (t'
        ≡ (update_inbound (claimable id (format now))
            (claimed (format (now + lease_or_minute lease))) t).1)
    × (select_first (λ x. x.id == id) t'.inbound
        ≡ some (claimed (format (now + lease_or_minute lease)) r))

claimed_tables-TakesHead :
    (session : Text) (now : Instant) (lease : ℤ) (t : Tables)
    → Inv t
    → (claimed_tables session now lease t).0 ≢ 0
    → TakesHead session now lease
        (claimed_tables session now lease t).0
        t
        (claimed_tables session now lease t).1
unfolding claimed_tables update_inbound
claimed_tables-TakesHead session now lease t v pos =
    elim (Option-cases (select_first (in_line session) t.inbound)) [
      | inl e ↦ absurd (pos (rw (e, claimed_head)))
      | inr (r, e) ↦ elim (Bool-cases (count_where (claimable r.id (format now)) t.inbound == 0)) [
        | inl none_due ↦ absurd (pos (rw (e, claimed_head) (rw none_due)))
        | inr due ↦
            let first = head_first session 0 t.inbound t.inbound_seq r v.inbound_ids e in
            let taken =
              head_claimed session (format now) (format (now + lease_or_minute lease)) 0 t.inbound
                t.inbound_seq r v.inbound_ids e (ground arith) in
            rw (e, claimed_head) (rw due (r, refl, refl, first.1, taken.0, refl, taken.1))
      ]
    ]

-- A claim that returns an id has taken the first message of the session's line: no open message of
-- the session has a smaller id, the message was due, and afterwards it is held under the next
-- attempt number with the new lease. No other row changes.
pub claim-head :
    (session : Text) (now : Instant) (lease : ℤ) (d : Db Tables Error) {id : ℕ}
    → Inv d.tables
    → (claim_due_inbound_id session now lease d).0 ≡ ok id
    → id ≢ 0
    → TakesHead session now lease id d.tables (claim_due_inbound_id session now lease d).1.tables
claim-head session now lease d {id} v won pos =
    elim (claim_due_inbound_id-claimed session now lease d) [
      | inl (e, p, q) ↦ absurd (cc)
      | inr (p, q) ↦
          let same : (claimed_tables session now lease d.tables).0 ≡ id = ground arith in
          rw q (
            subst
              (λ k.
                TakesHead session now lease k d.tables
                  (claimed_tables session now lease d.tables).1)
              same
              (claimed_tables-TakesHead session now lease d.tables v (λ z. pos (sym same ∙ z))))
    ]
