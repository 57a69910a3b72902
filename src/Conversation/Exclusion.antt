-- ===== src/Conversation/Exclusion.antt =====
-- The leases of conversation/db/lease.go.
pub mod Lasting
use zoa.Base.{
  ℕ, ◌+◌, ◌<◌, ◌≡◌, refl, sym, ap, subst, ◌∙◌, ◌≢◌, inl, inr, Bool, true, false, some, [], ◌∷◌,
  arith, if◌then◌else◌, select_first-update_where, select_first_holds,
}
use zoa.Base.Text.{Text, text_eq, text_neq, text_eq_refl, is_empty, trim}
use zoa.Base.Stamp.{Instant}
use zoa.Base.Sql.{Db, Result, ok, err}
use zoa.Conversation.Tables.{RefRow, Tables, Error, Codec}
use zoa.Conversation.Refs.{
  find_ref, update_refs, leased_away, leased, advance_ref, acquire_lease, renew_lease,
}
use zoa.Conversation.Moves.{advance_ref-Outcome, acquire_lease-Outcome, renew_lease-Outcome}

-- The call fails and changes no table.
abbrev pub Refused : {A : Type 0} → Tables → Result Error A × Db Tables Error → Type 0
Refused t r = (e : Error) × (r.0 ≡ err e) × (r.1.tables ≡ t)

-- At `at` the runner can neither lease the ref, nor move it, nor renew a lease of it.
abbrev pub ShutOut : Codec → Text → Text → Instant → Db Tables Error → Type 0
ShutOut codec name runner_id at d =
    ((duration : ℕ) (now : Instant)
      → Refused d.tables (acquire_lease name runner_id duration at now d))
    × ((expect_hash : Text) (msg : codec.Message) (now : Instant)
        → Refused d.tables (advance_ref codec name expect_hash msg runner_id at now d))
    × ((duration : ℕ) (now : Instant)
        → Refused d.tables (renew_lease name runner_id duration now d))

pub same_ref :
    (name : Text) (t : Tables) (r s : RefRow)
    → find_ref (trim name) t.refs ≡ some r
    → find_ref (trim name) t.refs ≡ some s
    → r ≡ s
same_ref name t r s e f = ground arith

not_mine :
    (ref : RefRow) (runner_id : Text) (at : Instant)
    → leased_away ref runner_id at ≡ true
    → ref.leased_by ≢ runner_id
not_mine ref runner_id at away mine = ground (arith, text_eq_refl runner_id)

away_not_free :
    (ref r : RefRow) (runner_id : Text) (at : Instant)
    → r ≡ ref
    → leased_away ref runner_id at ≡ true
    → leased_away r runner_id at ≡ false
    → true ≡ false
away_not_free ref r runner_id at same away free =
    sym away ∙ (ap (λ z. leased_away z runner_id at) (sym same) ∙ free)

pub leased_away-ShutOut :
    (codec : Codec) (name runner_id : Text) (at : Instant) (d : Db Tables Error) (ref : RefRow)
    → find_ref (trim name) d.tables.refs ≡ some ref
    → leased_away ref runner_id at ≡ true
    → ShutOut codec name runner_id at d
leased_away-ShutOut codec name runner_id at d ref found away = (
  λ duration now. elim (acquire_lease-Outcome name runner_id duration at now d) [
    | inl failed ↦ failed
    | inr (_, _, (r, f, free, _)) ↦ absurd (
        let no =
          away_not_free ref r runner_id at (same_ref name d.tables r ref f found) away free in
        cc)
  ],
  λ expect_hash msg now. elim (advance_ref-Outcome codec name expect_hash msg runner_id at now d) [
    | inl failed ↦ failed
    | inr (_, _, (r, f, _, free, _, _, _, _)) ↦ absurd (
        let no =
          away_not_free ref r runner_id at (same_ref name d.tables r ref f found) away free in
        cc)
  ],
  λ duration now. elim (renew_lease-Outcome name runner_id duration now d) [
    | inl failed ↦ failed
    | inr (_, _, (r, f, mine, _)) ↦ absurd (
        not_mine ref runner_id at away
          (ap (λ (x : RefRow). x.leased_by) (sym (same_ref name d.tables r ref f found)) ∙ mine))
  ],
)

pub runner_named :
    (name runner_id : Text) (duration : ℕ) (seen now : Instant) (d : Db Tables Error)
    → (acquire_lease name runner_id duration seen now d).0 ≡ ok tt
    → is_empty runner_id ≡ false
unfolding acquire_lease trim
runner_named name [] duration seen now d won = absurd (cc)
runner_named name (c ∷ r) duration seen now d won = refl

pub taken_ref :
    (name r1 : Text) (duration : ℕ) (now : Instant) (t : Tables) (ref : RefRow)
    → trim name ≡ name
    → find_ref (trim name) t.refs ≡ some ref
    → find_ref
        (trim name)
        (update_refs (λ r. text_eq r.name name) (leased r1 (now + duration) now) t).1.refs
      ≡ some (leased r1 (now + duration) now ref)
unfolding update_refs
taken_ref name r1 duration now t ref trimmed found =
    let p : RefRow → Bool = λ r. text_eq r.name (trim name) in
    let q : RefRow → Bool = λ r. text_eq r.name name in
    let f = leased r1 (now + duration) now in
    let hit : q ref ≡ true =
      subst (λ k. text_eq ref.name k ≡ true) trimmed
        (select_first_holds p t.refs {a = ref} found) in
    select_first-update_where p q f t.refs {a = ref} (λ x. refl) found
    ∙ ap (λ b. some (if b then f ref else ref)) hit
