-- ===== src/Conversation/Cas.antt =====
-- advanceRef as a compare and swap, and a lease by a name that is not stored.
use zoa.Base.{
  ℕ, suc, ◌+◌, ◌≡◌, refl, sym, ap, subst, ◌∙◌, ◌≢◌, inl, inr, Bool, true, false, ◌&&◌, some, List,
  [], ◌∷◌, ◌++◌, arith, length, All, if◌then◌else◌, select_first-update_where, select_first_holds,
  All-select_first, update_where,
}
use zoa.Base.Text.{Text, text_eq, text_eq_refl, is_empty, trim}
use zoa.Base.Stamp.{Instant}
use zoa.Base.Sql.{Db, ok, query, exec, transaction, finish, ◌>>=◌}
use zoa.Base.Sql.Outcomes.{bind_ok}
use zoa.Conversation.Tables.{
  NodeRow, RefRow, Tables, Error, ref_not_found, Codec, Action, node_hash,
}
use zoa.Conversation.Nodes.{find_node, found_or, add_node, message_row}
use zoa.Conversation.Refs.{
  find_ref, get_ref, update_refs, leased_away, leased, take_lease, advance_ref, acquire_lease,
}
use zoa.Conversation.Tree.Sound.{Hashing}
use zoa.Conversation.Tree.History.{history}
use zoa.Conversation.Tree.Insert.{message_row-Inserted}
use zoa.Conversation.Tree.Load.{quiet}
use zoa.Conversation.Moves.{Advances, advance_ref-Outcome}
use zoa.Conversation.Invariant.{Found, Inv, add_node_refs}
use zoa.Conversation.Exclusion.{Refused, same_ref}

length-append : {A : Type 0} (xs : List A) (a : A) → length (xs ++ (a ∷ [])) ≡ suc (length xs)
length-append [] a = refl
length-append (x ∷ xs) a = ap suc (length-append xs a)

module _ (codec : Codec) (H : Hashing codec) (name expect_hash : Text) (msg : codec.Message)
    (runner_id : Text) (seen now : Instant) (t : Tables) (v : Inv codec t) where
  -- The new node is not the one that it stands under.
  moved_on :
      (json : Text) (y : NodeRow)
      → find_node expect_hash t.nodes ≡ some y
      → codec.marshal msg ≡ some json
      → node_hash codec expect_hash json ≢ expect_hash
  moved_on json y e j same =
      let (x, _, _, _, _, hist) =
        message_row-Inserted codec H expect_hash msg json now t y e j v.grown in
      let t1 = (add_node (message_row codec expect_hash msg json now) t).1 in
      let cycle =
        ap length (ap (λ k. history k t1.nodes) (sym same) ∙ hist)
        ∙ length-append (history expect_hash t1.nodes) x in
      omega (arith, cycle)

  -- Where the ref stands after the move.
  moved_ref :
      (h : Text) (t' : Tables)
      → trim name ≡ name
      → Advances codec name expect_hash msg runner_id seen now t h t'
      → (ref : RefRow) × (find_ref (trim name) t'.refs ≡ some ref)
        × (ref.hash ≡ h)
        × (h ≢ expect_hash)
  unfolding update_refs
  moved_ref h t' trimmed (ref, found, at, _, json, j, e, q) =
      let t1 = (add_node (message_row codec expect_hash msg json now) t).1 in
      let p : RefRow → Bool = λ r. text_eq r.name (trim name) in
      let c : RefRow → Bool = λ r. text_eq r.name name && text_eq r.hash expect_hash in
      let f : RefRow → RefRow = λ r. record r { hash = h; updated_at = now } in
      let named = select_first_holds p t.refs {a = ref} found in
      let hit : c ref ≡ true =
        rw (at, text_eq_refl expect_hash)
          (rw (subst (λ k. text_eq ref.name k ≡ true) trimmed named) refl) in
      let (y, there) =
        subst (Found t) at
          (All-select_first (λ r. Found t r.hash) p t.refs {a = ref} v.refs_found found) in
      let found1 : find_ref (trim name) t1.refs ≡ some ref =
        subst (λ rs. find_ref (trim name) rs ≡ some ref)
          (sym (add_node_refs (message_row codec expect_hash msg json now) t)) found in
      (
        f ref,
        rw q (
            select_first-update_where p c f t1.refs {a = ref} (λ x. refl) found1
            ∙ ap (λ b. some (if b then f ref else ref)) hit),
        refl,
        subst (λ k. k ≢ expect_hash) (sym e) (moved_on json y there j),
      )

-- One of two wins. In a sound database, with no collision of SHA-256: when an append through a
-- ref, by its stored name, has succeeded, an append of any message by any runner that expects the
-- same hash as before fails and changes no table, whoever holds the lease.
pub advance_ref_once :
    (codec : Codec) (H : Hashing codec) (name expect_hash : Text) (msg msg' : codec.Message)
    (r1 r2 : Text) (seen now seen' now' : Instant) (d : Db Tables Error) {h : Text}
    → Inv codec d.tables
    → trim name ≡ name
    → (advance_ref codec name expect_hash msg r1 seen now d).0 ≡ ok h
    → let d' = (advance_ref codec name expect_hash msg r1 seen now d).1 in
      Refused d'.tables (advance_ref codec name expect_hash msg' r2 seen' now' d')
advance_ref_once codec H name expect_hash msg msg' r1 r2 seen now seen' now' d v trimmed won =
    elim (advance_ref-Outcome codec name expect_hash msg r1 seen now d) [
      | inl (e, p, _) ↦ absurd (cc)
      | inr (h', _, a) ↦
          let d' = (advance_ref codec name expect_hash msg r1 seen now d).1 in
          let (ref, found, at, other) =
            moved_ref codec H name expect_hash msg r1 seen now d.tables v h' d'.tables trimmed a in
          elim (advance_ref-Outcome codec name expect_hash msg' r2 seen' now' d') [
            | inl failed ↦ failed
            | inr (_, _, (ref', found', at', _, _, _, _, _)) ↦ absurd (
                other (
                  sym at
                  ∙ (ap (λ (x : RefRow). x.hash) (same_ref name d'.tables ref ref' found found')
                      ∙ at')))
          ]
    ]

unnamed :
    (name : Text) (f : RefRow → RefRow) (rs : List RefRow)
    → All (λ r. text_eq r.name name ≡ false) rs
    → update_where (λ r. text_eq r.name name) f rs ≡ rs
unnamed name f [] h = refl
unnamed name f (r ∷ rs) h = rw (h.0) (ap (λ k. r ∷ k) (unnamed name f rs h.1))

get_ref-quiet :
    (name : Text) (t : Tables) (ref : RefRow)
    → find_ref (trim name) t.refs ≡ some ref
    → get_ref name (quiet t) ≡ (ok ref, quiet t)
unfolding get_ref query exec
get_ref-quiet name t ref found = ap (λ o. found_or ref_not_found o (quiet t)) found

take_lease-quiet :
    (name runner_id : Text) (duration : ℕ) (seen now : Instant) (t : Tables) (ref : RefRow)
    → leased_away ref runner_id seen ≡ false
    → All (λ r. text_eq r.name name ≡ false) t.refs
    → take_lease name runner_id duration seen now ref (quiet t) ≡ (ok tt, quiet t)
unfolding take_lease exec update_refs
take_lease-quiet name runner_id duration seen now t ref free none_named = rw free (
    ap (λ rs. (ok tt, quiet (record t { refs = rs })))
      (unnamed name (leased runner_id (now + duration) now) t.refs none_named))

transaction-quiet :
    {A : Type 0} (m : Action A) (t : Tables) (a : A)
    → m (quiet t) ≡ (ok a, quiet t)
    → transaction m (quiet t) ≡ (ok a, quiet t)
unfolding transaction exec
transaction-quiet m t a e = ap (finish t) e

-- A lease that is none. acquireLease finds the ref by the trimmed name and updates it by the name
-- as given. Where no ref is stored under the name as given, but one under the trimmed name that no
-- other runner has leased, and no statement fails, a runner whose id is not blank is told that it
-- has the lease, and no table has changed.
pub acquire_lease_untrimmed :
    (name runner_id : Text) (duration : ℕ) (seen now : Instant) (t : Tables) (ref : RefRow)
    → is_empty (trim runner_id) ≡ false
    → find_ref (trim name) t.refs ≡ some ref
    → leased_away ref runner_id seen ≡ false
    → All (λ r. text_eq r.name name ≡ false) t.refs
    → acquire_lease name runner_id duration seen now (quiet t) ≡ (ok tt, quiet t)
unfolding acquire_lease
acquire_lease_untrimmed name runner_id duration seen now t ref named found free none_named =
    rw named (
      transaction-quiet (get_ref name >>= take_lease name runner_id duration seen now) t tt (
        bind_ok (get_ref name) (take_lease name runner_id duration seen now) (quiet t) ref
          (ap (λ r. r.0) (get_ref-quiet name t ref found))
        ∙ (ap (λ r. take_lease name runner_id duration seen now ref r.1)
              (get_ref-quiet name t ref found)
            ∙ take_lease-quiet name runner_id duration seen now t ref free none_named)))
