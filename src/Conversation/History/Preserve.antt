-- ===== src/Conversation/History/Preserve.antt =====
-- Properties of the tables of conversation/db under histories of calls.
use zoa.Base.{
  ℕ, ◌+◌, ◌≡◌, subst, ◌⊎◌, All-select_first, inl, inr, Bool, true, ◌&&◌, none, some, List, [], ◌∷◌,
  arith, All-update_where, update_where,
}
use zoa.Base.Text.{Text, text_eq, trim}
use zoa.Base.Stamp.{Instant}
use zoa.Base.Sql.{Db, Result, ok, err, exec}
use zoa.Base.Sql.Outcomes.{Outcome, exec-Outcome}
use zoa.Conversation.Tables.{RefRow, Tables, Error, Codec, or_root}
use zoa.Conversation.Nodes.{add_node, root_row, message_row, insert_root, append}
use zoa.Conversation.Refs.{
  default_lease_duration, find_ref, get_ref, update_refs, add_ref, create_ref, advance_ref, leased,
  acquire_lease, renew_lease, release_lease,
}
use zoa.Conversation.Leased.{lease_ref, after_lease, leased_or}
use zoa.Conversation.Tree.Sound.{Hashing}
use zoa.Conversation.Tree.Insert.{message_row-Inserted}
use zoa.Conversation.Effects.{
  Inserts, Appends, append-Outcome, Creates, create_ref-Outcome, get_ref-Outcome,
}
use zoa.Conversation.Moves.{
  Advances, advance_ref-Outcome, Takes, acquire_lease-Outcome, Renews, renew_lease-Outcome,
}
use zoa.Conversation.Invariant.{Found, IsPreserved}
use zoa.Conversation.History.Step.{
  Call, open_at, add, create, lease, advance, renew, release, step, run,
}

new_ref : Text → Text → Instant → RefRow
new_ref name hash now = record {
  name = name;
  hash = hash;
  leased_by = [];
  lease_until = none;
  updated_at = now;
}

add_ref_cases :
    (name hash : Text) (now : Instant) (t : Tables)
    → ((add_ref name hash now t).1 ≡ record t { refs = new_ref name hash now ∷ t.refs })
      ⊎ ((add_ref name hash now t).1 ≡ t)
unfolding add_ref new_ref
add_ref_cases name hash now t = ground arith

module _ (codec : Codec) (H : Hashing codec) (P : Tables → Type 0) (K : IsPreserved codec P) where
  outcome-P :
      {A : Type 0} (t : Tables) (R : A → Tables → Type 0) (r : Result Error A × Db Tables Error)
      → P t
      → ((a : A) (u : Tables) → R a u → P u)
      → Outcome t R r
      → P r.1.tables
  outcome-P t R r v keep (inl (e, _, q)) = rw q v
  outcome-P t R r v keep (inr (a, _, q)) = keep a r.1.tables q

  Inserts-P :
      (p : Text) (msg : codec.Message) (now : Instant) (t : Tables) (h : Text) (u : Tables)
      → Found t p
      → P t
      → Inserts codec p msg now t h u
      → P u
  Inserts-P p msg now t h u (y, e) v (json, j, _, q) =
      rw q (K.message_added p msg json now t y e j v)

  -- An UPDATE of refs that moves none but to a node.
  updated-P :
      (p : RefRow → Bool) (f : RefRow → RefRow) (t : Tables)
      → ((r : RefRow) → p r ≡ true → Found t r.hash → Found t (f r).hash)
      → P t
      → P (update_refs p f t).1
  unfolding update_refs
  updated-P p f t keep v =
      K.refs_changed t (update_where p f t.refs) v
        (All-update_where (λ r. Found t r.hash) p f t.refs keep (K.sound t v).refs_found)

  Creates-P :
      (name hash : Text) (now : Instant) (t u : Tables)
      → P t
      → Creates codec name hash now t u
      → P u
  unfolding new_ref
  Creates-P name hash now t u v (y, e, q) =
      rw q (elim (add_ref_cases (trim name) (or_root codec hash) now t) [
        | inl added ↦ rw added (
            K.refs_changed t (new_ref (trim name) (or_root codec hash) now ∷ t.refs) v
              ((y, e), (K.sound t v).refs_found))
        | inr taken ↦ rw taken v
      ])

  Advances-P :
      (name expect_hash : Text) (msg : codec.Message) (runner_id : Text) (seen now : Instant)
      (t : Tables) (h : Text) (u : Tables)
      → P t
      → Advances codec name expect_hash msg runner_id seen now t h u
      → P u
  Advances-P name expect_hash msg runner_id seen now t h u v (ref, found, at, _, json, j, e, q) =
      let (y, f) = subst (Found t) at (
        All-select_first (λ r. Found t r.hash) (λ r. text_eq r.name (trim name)) t.refs {a = ref}
          (K.sound t v).refs_found found) in
      let (x, g, _, _, _, _) =
        message_row-Inserted codec H expect_hash msg json now t y f j (K.sound t v).grown in
      rw (q, e)
        (updated-P (λ r. text_eq r.name name && text_eq r.hash expect_hash)
          (λ r. record r { hash = _; updated_at = now })
          (add_node (message_row codec expect_hash msg json now) t).1 (λ r _ _. (x, g))
          (K.message_added expect_hash msg json now t y f j v))

  release-P :
      (name runner_id : Text) (now : Instant) (d : Db Tables Error)
      → P d.tables
      → P (release_lease name runner_id now d).1.tables
  unfolding release_lease
  release-P name runner_id now d v =
      let p : RefRow → Bool = λ r. text_eq r.name name && text_eq r.leased_by runner_id in
      let f : RefRow → RefRow =
        λ r. record r { leased_by = []; lease_until = none; updated_at = now } in
      outcome-P d.tables
        (λ a t. (a ≡ (update_refs p f d.tables).0) × (t ≡ (update_refs p f d.tables).1))
        (exec (update_refs p f) d) v (λ a u q. rw (q.1) (updated-P p f d.tables (λ r _ k. k) v))
        (exec-Outcome (update_refs p f) d)

  Takes-P :
      (name runner_id : Text) (duration : ℕ) (seen now : Instant) (t u : Tables)
      → P t
      → Takes name runner_id duration seen now t u
      → P u
  Takes-P name runner_id duration seen now t u v (_, _, _, q) = rw q (
      updated-P (λ r. text_eq r.name name) (leased runner_id (now + duration) now) t (λ r _ k. k) v)

  Renews-P :
      (name runner_id : Text) (duration : ℕ) (now : Instant) (t u : Tables)
      → P t
      → Renews name runner_id duration now t u
      → P u
  Renews-P name runner_id duration now t u v (_, _, _, q) = rw q (
      updated-P (λ r. text_eq r.name name)
        (λ r. record r { lease_until = some (now + duration); updated_at = now }) t (λ r _ k. k) v)

  after_lease-P :
      (name runner_id : Text) (now : Instant) (r : Result Error (Unit {0})) (d : Db Tables Error)
      → P d.tables
      → P (after_lease name runner_id now (r, d)).1.tables
  unfolding after_lease leased_or
  after_lease-P name runner_id now (err e) d v = v
  after_lease-P name runner_id now (ok _) d v = leased_or-P (get_ref name d).0 (get_ref name d).1 (
      outcome-P d.tables (λ x t. (find_ref (trim name) d.tables.refs ≡ some x) × (t ≡ d.tables))
        (get_ref name d) v (λ a u q. rw (q.1) v) (get_ref-Outcome name d))
    where
      leased_or-P :
          (r : Result Error RefRow) (d : Db Tables Error)
          → P d.tables
          → P (leased_or name runner_id now (r, d)).1.tables
      leased_or-P (ok ref) d v = v
      leased_or-P (err e) d v = release-P name runner_id now d v

  step-Preserved : (c : Call codec) (d : Db Tables Error) → P d.tables → P (step codec c d).tables
  unfolding step lease_ref insert_root
  step-Preserved (open_at now) d v =
      let row = root_row codec now in
      outcome-P d.tables (λ a t. (a ≡ (add_node row d.tables).0) × (t ≡ (add_node row d.tables).1))
        (exec (add_node row) d) v (λ a u q. rw (q.1) (K.root_added now d.tables v))
        (exec-Outcome (add_node row) d)
  step-Preserved (add parent msg now) d v =
      outcome-P d.tables (Appends codec parent msg now d.tables) (append codec parent msg now d) v
        (λ h u (y, e, i). Inserts-P (or_root codec parent) msg now d.tables h u (y, e) v i)
        (append-Outcome codec parent msg now d)
  step-Preserved (create name hash now) d v =
      outcome-P d.tables (λ _ t. Creates codec name hash now d.tables t)
        (create_ref codec name hash now d) v (λ _ u q. Creates-P name hash now d.tables u v q)
        (create_ref-Outcome codec name hash now d)
  step-Preserved (lease name runner_id seen now) d v =
      after_lease-P name runner_id now
        (acquire_lease name runner_id default_lease_duration seen now d).0
        (acquire_lease name runner_id default_lease_duration seen now d).1
        (outcome-P d.tables (λ _ t. Takes name runner_id default_lease_duration seen now d.tables t)
          (acquire_lease name runner_id default_lease_duration seen now d) v
          (λ _ u q. Takes-P name runner_id default_lease_duration seen now d.tables u v q)
          (acquire_lease-Outcome name runner_id default_lease_duration seen now d))
  step-Preserved (advance name expect_hash msg runner_id seen now) d v =
      outcome-P d.tables (Advances codec name expect_hash msg runner_id seen now d.tables)
        (advance_ref codec name expect_hash msg runner_id seen now d) v
        (λ h u q. Advances-P name expect_hash msg runner_id seen now d.tables h u v q)
        (advance_ref-Outcome codec name expect_hash msg runner_id seen now d)
  step-Preserved (renew name runner_id duration now) d v =
      outcome-P d.tables (λ _ t. Renews name runner_id duration now d.tables t)
        (renew_lease name runner_id duration now d) v
        (λ _ u q. Renews-P name runner_id duration now d.tables u v q)
        (renew_lease-Outcome name runner_id duration now d)
  step-Preserved (release name runner_id now) d v = release-P name runner_id now d v

  pub run-Preserved :
      (cs : List (Call codec)) (d : Db Tables Error) → P d.tables → P (run codec cs d).tables
  unfolding run
  run-Preserved [] d v = v
  run-Preserved (c ∷ cs) d v = run-Preserved cs (step codec c d) (step-Preserved c d v)
