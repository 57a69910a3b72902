-- ===== src/Conversation/Moves.antt =====
-- What the transactions on a ref do to the tables when they succeed: an append through the ref, and
-- the operations on its lease.
use zoa.Base.{
  ℕ, ◌+◌, ◌≡◌, refl, ap, subst, ◌∙◌, inl, inr, Bool, false, ◌&&◌, some, arith, Bool-cases,
}
use zoa.Base.Text.{Text, codes, text_eq, text_eq_sound, is_empty, trim}
use zoa.Base.Stamp.{Instant}
use zoa.Base.Sql.{Db, pure, ◌>>=◌, ◌>>◌, exec}
use zoa.Base.Sql.Outcomes.{
  Outcome, map-Outcome, Succeeds, exec-Outcome, raise-Succeeds, Outcome-Succeeds,
  transaction-Outcome, >>=-Succeeds,
}
use zoa.Conversation.Tables.{
  RefRow, Tables, Error, ref_moved, ref_leased, lease_not_held, message, Codec, Action, node_hash,
}
use zoa.Conversation.Nodes.{add_node, message_row, insert_node}
use zoa.Conversation.Refs.{
  find_ref, get_ref, update_refs, leased_away, advance, advance_ref, leased, take_lease,
  acquire_lease, extend_lease, renew_lease,
}
use zoa.Conversation.Effects.{Inserts, insert_node-Outcome, get_ref-Outcome}

-- What follows get_ref in a transaction.
ref_then :
    {A : Type 0} (d : Db Tables Error) (name : Text) (f : RefRow → Action A)
    (R : A → Tables → Type 0)
    → ((ref : RefRow) (d' : Db Tables Error)
        → find_ref (trim name) d.tables.refs ≡ some ref
        → d'.tables ≡ d.tables
        → Succeeds R (f ref d'))
    → Succeeds R ((get_ref name >>= f) d)
ref_then d name f R next =
    >>=-Succeeds (get_ref name) f d
      (λ r t. (find_ref (trim name) d.tables.refs ≡ some r) × (t ≡ d.tables)) R
      (Outcome-Succeeds d.tables
        (λ r t. (find_ref (trim name) d.tables.refs ≡ some r) × (t ≡ d.tables)) (get_ref name d)
        (get_ref-Outcome name d))
      (λ ref d' q. next ref d' q.0 q.1)

module _ (codec : Codec) where
  abbrev pub move_ref : Text → Text → Text → Instant → Tables → Tables
  move_ref name expect_hash h now t =
      (update_refs (λ r. text_eq r.name name && text_eq r.hash expect_hash)
        (λ r. record r { hash = h; updated_at = now }) t).1

  -- The ref stood at `expect_hash` and was not leased to another; the message is inserted there and
  -- the ref moved to it.
  abbrev pub Advances :
      Text → Text → codec.Message → Text → Instant → Instant → Tables → Text → Tables → Type 0
  Advances name expect_hash msg runner_id seen now t h t' =
      (ref : RefRow) × (find_ref (trim name) t.refs ≡ some ref)
      × (ref.hash ≡ expect_hash)
      × (leased_away ref runner_id seen ≡ false)
      × (json : Text) × (codec.marshal msg ≡ some json)
      × (h ≡ node_hash codec expect_hash json)
      × (t'
          ≡ move_ref name expect_hash h now
              (add_node (message_row codec expect_hash msg json now) t).1)

  module _ (name expect_hash : Text) (msg : codec.Message) (runner_id : Text)
      (seen now : Instant) where
    moving-Succeeds :
        (t : Tables) (ref : RefRow) (h : Text) (d : Db Tables Error)
        → find_ref (trim name) t.refs ≡ some ref
        → ref.hash ≡ expect_hash
        → leased_away ref runner_id seen ≡ false
        → Inserts codec expect_hash msg now t h d.tables
        → Succeeds (Advances name expect_hash msg runner_id seen now t) (
            (exec (
                  update_refs
                    (λ r. text_eq r.name name && text_eq r.hash expect_hash)
                    λ r. record r { hash = h; updated_at = now })
                >> pure h)
              d)
    moving-Succeeds t ref h d found at free (json, j, e, same) =
        let f =
          update_refs (λ r. text_eq r.name name && text_eq r.hash expect_hash)
            λ r. record r { hash = h; updated_at = now } in
        >>=-Succeeds (exec f) (λ _. pure h) d (λ a u. u ≡ (f d.tables).1)
          (Advances name expect_hash msg runner_id seen now t)
          (Outcome-Succeeds d.tables (λ a u. u ≡ (f d.tables).1) (exec f d)
            (map-Outcome d.tables d.tables (λ a u. (a ≡ (f d.tables).0) × (u ≡ (f d.tables).1))
              (λ a u. u ≡ (f d.tables).1) (exec f d) refl (λ a q. q.1) (exec-Outcome f d)))
          (λ _ d' q a eq.
            let same_hash : h ≡ a = ground arith in
            subst (λ k. Advances name expect_hash msg runner_id seen now t k d'.tables) same_hash
              (ref, found, at, free, json, j, e, q ∙ ap (move_ref name expect_hash h now) same))

    advance-Succeeds :
        (t : Tables) (ref : RefRow) (d : Db Tables Error)
        → find_ref (trim name) t.refs ≡ some ref
        → d.tables ≡ t
        → Succeeds
            (Advances name expect_hash msg runner_id seen now t)
            (advance codec name expect_hash msg runner_id seen now ref d)
    unfolding advance
    advance-Succeeds t ref d found same = elim (Bool-cases (text_eq ref.hash expect_hash)) [
      | inr moved ↦
          rw moved (raise-Succeeds (Advances name expect_hash msg runner_id seen now t) ref_moved d)
      | inl at ↦ elim (Bool-cases (leased_away ref runner_id seen)) [
        | inl away ↦
            rw (at, away)
              (raise-Succeeds (Advances name expect_hash msg runner_id seen now t) ref_leased d)
        | inr free ↦
            rw (at, free)
              (>>=-Succeeds (insert_node codec expect_hash msg now)
                (λ h.
                  exec (
                    update_refs (λ r. text_eq r.name name && text_eq r.hash expect_hash)
                      λ r. record r { hash = h; updated_at = now })
                  >> pure h)
                d (Inserts codec expect_hash msg now d.tables)
                (Advances name expect_hash msg runner_id seen now t)
                (Outcome-Succeeds d.tables (Inserts codec expect_hash msg now d.tables)
                  (insert_node codec expect_hash msg now d)
                  (insert_node-Outcome codec expect_hash msg now d))
                (λ h d' i.
                  moving-Succeeds t ref h d' found (text_eq_sound ref.hash expect_hash at) free
                    (subst (λ u. Inserts codec expect_hash msg now u h d'.tables) same i)))
      ]
    ]

    pub advance_ref-Outcome :
        (d : Db Tables Error)
        → Outcome d.tables
            (Advances name expect_hash msg runner_id seen now d.tables)
            (advance_ref codec name expect_hash msg runner_id seen now d)
    unfolding advance_ref
    advance_ref-Outcome d =
        transaction-Outcome (Advances name expect_hash msg runner_id seen now d.tables)
          (get_ref name >>= advance codec name expect_hash msg runner_id seen now) d
          (λ fs.
            ref_then (record d { faults = fs }) name
              (advance codec name expect_hash msg runner_id seen now)
              (Advances name expect_hash msg runner_id seen now d.tables)
              (λ ref d' found same. advance-Succeeds d.tables ref d' found same))

module _ (name runner_id : Text) (duration : ℕ) where
  -- The ref was not leased to another, and the refs with the name are leased to the runner.
  abbrev pub Takes : Instant → Instant → Tables → Tables → Type 0
  Takes seen now t t' =
      (ref : RefRow) × (find_ref (trim name) t.refs ≡ some ref)
      × (leased_away ref runner_id seen ≡ false)
      × (t' ≡ (update_refs (λ r. text_eq r.name name) (leased runner_id (now + duration) now) t).1)

  -- The runner holds the lease, which is extended.
  abbrev pub Renews : Instant → Tables → Tables → Type 0
  Renews now t t' =
      (ref : RefRow) × (find_ref (trim name) t.refs ≡ some ref)
      × (ref.leased_by ≡ runner_id)
      × (t'
          ≡ (update_refs (λ r. text_eq r.name name)
              (λ r. record r { lease_until = some (now + duration); updated_at = now }) t).1)

  updated-Succeeds :
      (p : RefRow → Bool) (f : RefRow → RefRow) (t : Tables) (d : Db Tables Error)
      → d.tables ≡ t
      → Succeeds (λ _ u. u ≡ (update_refs p f t).1) (exec {E = Error} (update_refs p f) d)
  updated-Succeeds p f t d same =
      Outcome-Succeeds d.tables (λ _ u. u ≡ (update_refs p f t).1) (exec (update_refs p f) d)
        (map-Outcome d.tables d.tables
          (λ a u. (a ≡ (update_refs p f d.tables).0) × (u ≡ (update_refs p f d.tables).1))
          (λ _ u. u ≡ (update_refs p f t).1) (exec (update_refs p f) d) refl
          (λ _ q. q.1 ∙ ap (λ v. (update_refs p f v).1) same) (exec-Outcome (update_refs p f) d))

  take_lease-Succeeds :
      (seen now : Instant) (t : Tables) (ref : RefRow) (d : Db Tables Error)
      → find_ref (trim name) t.refs ≡ some ref
      → d.tables ≡ t
      → Succeeds (λ _ u. Takes seen now t u) (take_lease name runner_id duration seen now ref d)
  unfolding take_lease
  take_lease-Succeeds seen now t ref d found same =
      elim (Bool-cases (leased_away ref runner_id seen)) [
        | inl away ↦ rw away (raise-Succeeds (λ (_ : Unit {0}) u. Takes seen now t u) ref_leased d)
        | inr free ↦ rw free (λ a e. (
          ref,
          found,
          free,
          updated-Succeeds (λ r. text_eq r.name name) (leased runner_id (now + duration) now) t d
              same a e,
        ))
      ]

  pub acquire_lease-Outcome :
      (seen now : Instant) (d : Db Tables Error)
      → Outcome d.tables
          (λ _ t. Takes seen now d.tables t)
          (acquire_lease name runner_id duration seen now d)
  unfolding acquire_lease
  acquire_lease-Outcome seen now d = elim (Bool-cases (is_empty (trim runner_id))) [
    | inl y ↦ rw y (inl (message (codes "runner id is required"), refl, refl))
    | inr n ↦ rw n (
        transaction-Outcome (λ _ t. Takes seen now d.tables t)
          (get_ref name >>= take_lease name runner_id duration seen now) d
          (λ fs.
            ref_then (record d { faults = fs }) name (take_lease name runner_id duration seen now)
              (λ _ t. Takes seen now d.tables t) (take_lease-Succeeds seen now d.tables)))
  ]

  extend_lease-Succeeds :
      (now : Instant) (t : Tables) (ref : RefRow) (d : Db Tables Error)
      → find_ref (trim name) t.refs ≡ some ref
      → d.tables ≡ t
      → Succeeds (λ _ u. Renews now t u) (extend_lease name runner_id duration now ref d)
  unfolding extend_lease
  extend_lease-Succeeds now t ref d found same =
      elim (Bool-cases (text_eq ref.leased_by runner_id)) [
        | inr lost ↦ rw lost (raise-Succeeds (λ (_ : Unit {0}) u. Renews now t u) lease_not_held d)
        | inl mine ↦ rw mine (λ a e. (
          ref,
          found,
          text_eq_sound ref.leased_by runner_id mine,
          updated-Succeeds (λ r. text_eq r.name name)
              (λ r. record r { lease_until = some (now + duration); updated_at = now }) t d same a
              e,
        ))
      ]

  pub renew_lease-Outcome :
      (now : Instant) (d : Db Tables Error)
      → Outcome d.tables (λ _ t. Renews now d.tables t) (renew_lease name runner_id duration now d)
  unfolding renew_lease
  renew_lease-Outcome now d =
      transaction-Outcome (λ _ t. Renews now d.tables t)
        (get_ref name >>= extend_lease name runner_id duration now) d
        (λ fs.
          ref_then (record d { faults = fs }) name (extend_lease name runner_id duration now)
            (λ _ t. Renews now d.tables t) (extend_lease-Succeeds now d.tables))
