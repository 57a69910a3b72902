-- ===== src/Conversation/Exclusion/Lasting.antt =====
-- How long the leases of conversation/db/lease.go exclude others: while calls of all kinds go on.
use zoa.Base.{
  ℕ, ◌+◌, ◌≤◌, ◌<◌, ◌≡◌, refl, sym, ap, subst, ◌∙◌, ◌≢◌, inl, inr, Bool, true, false, ◌&&◌, none,
  some, List, [], ◌∷◌, arith, All, if◌then◌else◌, select_first-update_where, select_first_holds,
  update_where, Option-cases,
}
use zoa.Base.Text.{Text, text_eq, text_eq_sound, text_neq, is_empty, trim}
use zoa.Base.Stamp.{Instant}
use zoa.Base.Sql.{Db, Result, ok, err, exec}
use zoa.Base.Sql.Outcomes.{Outcome, exec-Outcome}
use zoa.Conversation.Tables.{NodeRow, RefRow, Tables, Error, Codec, or_root}
use zoa.Conversation.Nodes.{add_node, root_row, message_row, insert_root, append}
use zoa.Conversation.Refs.{
  default_lease_duration, find_ref, get_ref, update_refs, add_ref, create_ref, leased_away, leased,
  advance_ref, acquire_lease, renew_lease, release_lease,
}
use zoa.Conversation.Leased.{lease_ref, after_lease, leased_or}
use zoa.Conversation.Effects.{Appends, append-Outcome, Creates, create_ref-Outcome, get_ref-Outcome}
use zoa.Conversation.Moves.{
  Advances, advance_ref-Outcome, Takes, acquire_lease-Outcome, Renews, renew_lease-Outcome,
}
use zoa.Conversation.Invariant.{add_node_refs}
use zoa.Conversation.History.{Call, open_at, add, create, lease, advance, renew, release, step, run}
use zoa.Conversation.Exclusion.{ShutOut, leased_away-ShutOut, same_ref, taken_ref, runner_named}

-- The call leaves the runner's lease of the ref until `until`: others try to lease it before then, the
-- runner does not lease it anew or release it, and renews it to no earlier time.
abbrev pub Spares : {codec : Codec} → Text → Text → Instant → Call codec → Type 0
Spares name r1 until (open_at now) = Unit
Spares name r1 until (add parent msg now) = Unit
Spares name r1 until (create n hash now) = Unit
Spares name r1 until (lease n r seen now) = n ≡ name → (r ≢ r1) × (seen < until)
Spares name r1 until (advance n expect_hash msg r seen now) = Unit
Spares name r1 until (renew n r duration now) = n ≡ name → r ≡ r1 → until ≤ now + duration
Spares name r1 until (release n r now) = n ≡ name → r ≢ r1

module _ (name r1 : Text) (until : Instant) where
  abbrev HeldRow : RefRow → Type 0
  HeldRow ref = (ref.leased_by ≡ r1) × (u : Instant) × (ref.lease_until ≡ some u) × (until ≤ u)

  -- The ref is leased to the runner, until then at least.
  abbrev Held : List RefRow → Type 0
  Held refs = (ref : RefRow) × (find_ref name refs ≡ some ref) × HeldRow ref

  outcome-Held :
      {A : Type 0} (t : Tables) (R : A → Tables → Type 0) (r : Result Error A × Db Tables Error)
      → Held t.refs
      → ((a : A) (u : Tables) → R a u → Held u.refs)
      → Outcome t R r
      → Held r.1.tables.refs
  outcome-Held t R r v keep (inl (e, _, q)) = rw q v
  outcome-Held t R r v keep (inr (a, _, q)) = keep a r.1.tables q

  update-Held :
      (q : RefRow → Bool) (f : RefRow → RefRow) (refs : List RefRow)
      → ((r : RefRow) → (f r).name ≡ r.name)
      → ((ref : RefRow)
          → find_ref name refs ≡ some ref
          → ref.name ≡ name
          → HeldRow ref
          → q ref ≡ true
          → HeldRow (f ref))
      → Held refs
      → Held (update_where q f refs)
  update-Held q f refs named keep (ref, found, held) = (
    if q ref then f ref else ref,
    select_first-update_where (λ r. text_eq r.name name) q f refs {a = ref}
        (λ r. ap (λ n. text_eq n name) (named r)) found,
    either_way (q ref) refl,
  )
    where
      either_way : (b : Bool) → q ref ≡ b → HeldRow (if b then f ref else ref)
      either_way false e = held
      either_way true e =
          keep ref found
            (text_eq_sound ref.name name
              (select_first_holds (λ r. text_eq r.name name) refs {a = ref} found))
            held e

  add_node-Held : (row : NodeRow) (t : Tables) → Held t.refs → Held (add_node row t).1.refs
  add_node-Held row t v = subst Held (sym (add_node_refs row t)) v

  new_name :
      (n h : Text) (now : Instant) (t : Tables) (ref : RefRow)
      → find_ref name t.refs ≡ some ref
      → find_ref n t.refs ≡ none
      → find_ref name (add_ref n h now t).1.refs ≡ some ref
  unfolding add_ref
  new_name n h now t ref found e =
      let other : text_eq n name ≡ false =
        text_neq n name (λ same. let k = ap (λ m. find_ref m t.refs) same in cc) in
      ground arith

  old_name :
      (n h : Text) (now : Instant) (t : Tables) (x : RefRow)
      → find_ref n t.refs ≡ some x
      → (add_ref n h now t).1.refs ≡ t.refs
  unfolding add_ref
  old_name n h now t x e = ground arith

  add_ref-Held :
      (n h : Text) (now : Instant) (t : Tables) → Held t.refs → Held (add_ref n h now t).1.refs
  add_ref-Held n h now t (ref, found, held) = elim (Option-cases (find_ref n t.refs)) [
    | inr (x, e) ↦ subst Held (sym (old_name n h now t x e)) (ref, found, held)
    | inl e ↦ (ref, new_name n h now t ref found e, held)
  ]

  module _ (named : is_empty r1 ≡ false) (trimmed : trim name ≡ name) where
    HeldRow-away :
        (ref : RefRow) (r : Text) (at : Instant)
        → HeldRow ref
        → r ≢ r1
        → at < until
        → leased_away ref r at ≡ true
    HeldRow-away ref r at (by, u, till, le) other early =
        rw (by, till, named, text_neq r1 r (λ e. other (sym e))) (ground (arith, le, early))

    -- The ref that the transaction of a call with this name found.
    found_same :
        (n : Text) (t : Tables) (ref ref' : RefRow)
        → find_ref name t.refs ≡ some ref
        → find_ref (trim n) t.refs ≡ some ref'
        → n ≡ name
        → ref' ≡ ref
    found_same n t ref ref' found found' e =
        same_ref name t ref' ref (subst (λ k. find_ref (trim k) t.refs ≡ some ref') e found')
          (rw trimmed found)

    Takes-Held :
        (n r : Text) (duration : ℕ) (seen now : Instant) (t u : Tables)
        → (n ≡ name → (r ≢ r1) × (seen < until))
        → Held t.refs
        → Takes n r duration seen now t u
        → Held u.refs
    unfolding update_refs
    Takes-Held n r duration seen now t u spare v (ref', found', free, q) = rw q (
        update-Held (λ x. text_eq x.name n) (leased r (now + duration) now) t.refs (λ x. refl)
          (λ ref found is held hit. absurd (
            let e : n ≡ name = sym (text_eq_sound ref.name n hit) ∙ is in
            let away = HeldRow-away ref r seen held (spare e).0 (spare e).1 in
            let same = found_same n t ref ref' found found' e in
            let no = ap (λ z. leased_away z r seen) same in cc))
          v)

    Renews-Held :
        (n r : Text) (duration : ℕ) (now : Instant) (t u : Tables)
        → (n ≡ name → r ≡ r1 → until ≤ now + duration)
        → Held t.refs
        → Renews n r duration now t u
        → Held u.refs
    unfolding update_refs
    Renews-Held n r duration now t u spare v (ref', found', mine, q) = rw q (
        update-Held (λ x. text_eq x.name n)
          (λ x. record x { lease_until = some (now + duration); updated_at = now }) t.refs
          (λ x. refl)
          (λ ref found is (by, _, _, _) hit.
            let e : n ≡ name = sym (text_eq_sound ref.name n hit) ∙ is in
            let same = found_same n t ref ref' found found' e in
            (
              by,
              now + duration,
              refl,
              spare e (sym mine ∙ (ap (λ (z : RefRow). z.leased_by) same ∙ by)),
            ))
          v)

    both : (a b : Bool) → (a && b) ≡ true → (a ≡ true) × (b ≡ true)
    both true true e = (refl, refl)
    both true false e = absurd (cc)
    both false b e = absurd (cc)

    release-Held :
        (n r : Text) (now : Instant) (d : Db Tables Error)
        → (n ≡ name → r ≢ r1)
        → Held d.tables.refs
        → Held (release_lease n r now d).1.tables.refs
    unfolding release_lease update_refs
    release-Held n r now d spare v =
        let p : RefRow → Bool = λ x. text_eq x.name n && text_eq x.leased_by r in
        let f : RefRow → RefRow =
          λ x. record x { leased_by = []; lease_until = none; updated_at = now } in
        outcome-Held d.tables
          (λ a t. (a ≡ (update_refs p f d.tables).0) × (t ≡ (update_refs p f d.tables).1))
          (exec (update_refs p f) d) v
          (λ a u q. rw (q.1) (
            update-Held p f d.tables.refs (λ x. refl)
              (λ ref found is (by, _, _, _) hit. absurd (
                let hits = both (text_eq ref.name n) (text_eq ref.leased_by r) hit in
                spare (sym (text_eq_sound ref.name n hits.0) ∙ is)
                  (sym (text_eq_sound ref.leased_by r hits.1) ∙ by)))
              v))
          (exec-Outcome (update_refs p f) d)

    after_lease-Held :
        (n r : Text) (now : Instant) (a : Result Error (Unit {0})) (d : Db Tables Error)
        → (n ≡ name → r ≢ r1)
        → Held d.tables.refs
        → Held (after_lease n r now (a, d)).1.tables.refs
    unfolding after_lease leased_or
    after_lease-Held n r now (err e) d spare v = v
    after_lease-Held n r now (ok _) d spare v = leased_or-Held (get_ref n d).0 (get_ref n d).1 (
        outcome-Held d.tables (λ x t. (find_ref (trim n) d.tables.refs ≡ some x) × (t ≡ d.tables))
          (get_ref n d) v (λ a u q. rw (q.1) v) (get_ref-Outcome n d))
      where
        leased_or-Held :
            (x : Result Error RefRow) (d' : Db Tables Error)
            → Held d'.tables.refs
            → Held (leased_or n r now (x, d')).1.tables.refs
        leased_or-Held (ok ref) d' k = k
        leased_or-Held (err e) d' k = release-Held n r now d' spare k

    module _ (codec : Codec) where
      Advances-Held :
          (n p : Text) (msg : codec.Message) (r : Text) (seen now : Instant) (t : Tables) (h : Text)
          (u : Tables)
          → Held t.refs
          → Advances codec n p msg r seen now t h u
          → Held u.refs
      unfolding update_refs
      Advances-Held n p msg r seen now t h u v (_, _, _, _, json, _, _, q) =
          let row = message_row codec p msg json now in
          rw q (
            update-Held (λ x. text_eq x.name n && text_eq x.hash p)
              (λ x. record x { hash = h; updated_at = now }) (add_node row t).1.refs (λ x. refl)
              (λ ref found is held hit. held) (add_node-Held row t v))

      step-Held :
          (c : Call codec) (d : Db Tables Error)
          → Spares name r1 until c
          → Held d.tables.refs
          → Held (step codec c d).tables.refs
      unfolding step lease_ref insert_root
      step-Held (open_at now) d spare v =
          let row = root_row codec now in
          outcome-Held d.tables
            (λ a t. (a ≡ (add_node row d.tables).0) × (t ≡ (add_node row d.tables).1))
            (exec (add_node row) d) v (λ a u q. rw (q.1) (add_node-Held row d.tables v))
            (exec-Outcome (add_node row) d)
      step-Held (add parent msg now) d spare v =
          outcome-Held d.tables (Appends codec parent msg now d.tables)
            (append codec parent msg now d) v
            (λ h u (_, _, (json, _, _, q)).
              rw q
                (add_node-Held (message_row codec (or_root codec parent) msg json now) d.tables v))
            (append-Outcome codec parent msg now d)
      step-Held (create n hash now) d spare v =
          outcome-Held d.tables (λ _ t. Creates codec n hash now d.tables t)
            (create_ref codec n hash now d) v
            (λ _ u (_, _, q). rw q (add_ref-Held (trim n) (or_root codec hash) now d.tables v))
            (create_ref-Outcome codec n hash now d)
      step-Held (lease n r seen now) d spare v =
          after_lease-Held n r now (acquire_lease n r default_lease_duration seen now d).0
            (acquire_lease n r default_lease_duration seen now d).1 (λ e. (spare e).0)
            (outcome-Held d.tables (λ _ t. Takes n r default_lease_duration seen now d.tables t)
              (acquire_lease n r default_lease_duration seen now d) v
              (λ _ u q. Takes-Held n r default_lease_duration seen now d.tables u spare v q)
              (acquire_lease-Outcome n r default_lease_duration seen now d))
      step-Held (advance n p msg r seen now) d spare v =
          outcome-Held d.tables (Advances codec n p msg r seen now d.tables)
            (advance_ref codec n p msg r seen now d) v
            (λ h u q. Advances-Held n p msg r seen now d.tables h u v q)
            (advance_ref-Outcome codec n p msg r seen now d)
      step-Held (renew n r duration now) d spare v =
          outcome-Held d.tables (λ _ t. Renews n r duration now d.tables t)
            (renew_lease n r duration now d) v
            (λ _ u q. Renews-Held n r duration now d.tables u spare v q)
            (renew_lease-Outcome n r duration now d)
      step-Held (release n r now) d spare v = release-Held n r now d spare v

      run-Held :
          (cs : List (Call codec)) (d : Db Tables Error)
          → All (Spares name r1 until) cs
          → Held d.tables.refs
          → Held (run codec cs d).tables.refs
      unfolding run
      run-Held [] d spares v = v
      run-Held (c ∷ cs) d spares v =
          run-Held cs (step codec c d) spares.1 (step-Held c d spares.0 v)

-- A lease excludes until it ends. A runner has leased a ref by its stored name. Then any calls go on,
-- of the holder and of others, appends through the ref among them, except that the holder does not
-- lease the ref anew, release it, or renew it to a time before `until`, and that the attempts of
-- others to lease it read a clock before `until`. At any time before `until`, which is not after the end of the lease, each call of another
-- runner to lease the ref, move it or renew its lease fails and changes no table.
pub run-ShutOut :
    (codec : Codec) (name r1 r2 : Text) (duration : ℕ) (seen now until at : Instant)
    (cs : List (Call codec)) (d : Db Tables Error)
    → trim name ≡ name
    → r2 ≢ r1
    → until ≤ now + duration
    → at < until
    → All (Spares name r1 until) cs
    → (acquire_lease name r1 duration seen now d).0 ≡ ok tt
    → ShutOut codec name r2 at (run codec cs (acquire_lease name r1 duration seen now d).1)
run-ShutOut codec name r1 r2 duration seen now until at cs d trimmed other le early spares won =
    let d' = (acquire_lease name r1 duration seen now d).1 in
    let named = runner_named name r1 duration seen now d won in
    let held : Held name r1 until d'.tables.refs =
      elim (acquire_lease-Outcome name r1 duration seen now d) [
        | inl (e, p, _) ↦ absurd (cc)
        | inr (_, _, (ref, found, _, q)) ↦ rw q (
          leased r1 (now + duration) now ref,
          subst
              (λ k.
                find_ref k
                  (update_refs (λ r. text_eq r.name name) (leased r1 (now + duration) now)
                    d.tables).1.refs
                ≡ some (leased r1 (now + duration) now ref))
              trimmed (taken_ref name r1 duration now d.tables ref trimmed found),
          (refl, now + duration, refl, le),
        )
      ] in
    let (ref, found, still) = run-Held name r1 until named trimmed codec cs d' spares held in
    leased_away-ShutOut codec name r2 at (run codec cs d') ref (rw trimmed found)
      (HeldRow-away name r1 until named trimmed ref r2 at still other early)
