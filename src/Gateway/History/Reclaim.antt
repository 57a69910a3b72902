-- ===== src/Gateway/History/Reclaim.antt =====
-- Claims and earlier attempts at the same message, for hub/util/gateway/state.go.
use zoa.Base.{
  ℕ, ◌+◌, ◌≤◌, ◌≡◌, sym, subst, ◌≢◌, inl, inr, true, some, List, [], ◌∷◌, arith, All, select_first,
  update_where, Bool-cases,
}
use zoa.Base.Int.{ℤ}
use zoa.Base.Text.{Text}
use zoa.Base.Stamp.{Instant, Stamp, format}
use zoa.Base.Sql.{Db, ok}
use zoa.Gateway.Tables.{Inbound, Tables, Error, Json}
use zoa.Gateway.Inbound.{
  in_line, claimable, claimed, lease_or_minute, update_inbound, claim_due_inbound_id,
}
use zoa.Gateway.Invariant.{Ids, Inv}
use zoa.Gateway.Claiming.{claim-head, head_first}
use zoa.Gateway.History.Step.{Call, run}
use zoa.Gateway.History.Fencing.{Past, AllLate, fenced_after}

module _ (now until : Stamp) (attempt : ℕ) where
  later-Past :
      (id lo : ℕ) (rs : List Inbound) (hi : ℕ)
      → id ≤ lo
      → Ids lo rs hi
      → (id ≤ hi) × All (Past id attempt) (update_where (claimable id now) (claimed until) rs)
  later-Past id lo [] hi le ids = (omega arith, tt)
  later-Past id lo (x ∷ rs) hi le ids =
      let rest = later-Past id x.id rs hi (omega arith) ids.1 in (rest.0, (ground arith, rest.1))

  head-Past :
      (session : Text) (lo : ℕ) (rs : List Inbound) (hi : ℕ) (r : Inbound)
      → Ids lo rs hi
      → select_first (in_line session) rs ≡ some r
      → claimable r.id now r ≡ true
      → attempt ≤ r.attempt_count
      → (r.id ≤ hi) × All (Past r.id attempt) (update_where (claimable r.id now) (claimed until) rs)
  head-Past session lo [] hi r ids h due le = absurd (cc)
  head-Past session lo (x ∷ rs) hi r ids h due le = elim (Bool-cases (in_line session x)) [
    | inl e ↦
        let same : x ≡ r = ground arith in
        let rest = later-Past r.id x.id rs hi (rw same (omega arith)) ids.1 in
        (rest.0, (rw (same, due) (inr (inl (omega arith))), rest.1))
    | inr e ↦
        let h' : select_first (in_line session) rs ≡ some r = ground arith in
        let rest = head-Past session x.id rs hi r ids.1 h' due le in
        let beyond = head_first session x.id rs hi r ids.1 h' in (rest.0, (ground arith, rest.1))
  ]

-- After a claim that returns an id, whoever held the message under the attempt number that it had,
-- or an earlier one, can change nothing any more: after any further history every completion, retry
-- and renewal under that attempt reports no success and changes no table.
pub claim-fences :
    (json : Json) (cs : List Call) (session : Text) (now : Instant) (lease : ℤ)
    (d : Db Tables Error) {id : ℕ}
    → Inv d.tables
    → (claim_due_inbound_id session now lease d).0 ≡ ok id
    → id ≢ 0
    → (r : Inbound) × (select_first (in_line session) d.tables.inbound ≡ some r)
      × (r.id ≡ id)
      × ((attempt : ℕ)
          → attempt ≤ r.attempt_count
          → AllLate id attempt (run json cs (claim_due_inbound_id session now lease d).1))
unfolding update_inbound
claim-fences json cs session now lease d {id} v won pos =
    let (r, same, head, _, due, after, _) = claim-head session now lease d v won pos in
    (
      r,
      head,
      same,
      λ attempt le. fenced_after json cs _ id attempt (
          rw after (
            rw (← same) (
              head-Past (format now) (format (now + lease_or_minute lease)) attempt session 0
                d.tables.inbound d.tables.inbound_seq r v.inbound_ids head
                (subst (λ k. claimable k (format now) r ≡ true) (sym same) due) le))),
    )
