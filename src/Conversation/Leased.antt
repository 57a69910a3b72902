-- ===== src/Conversation/Leased.antt =====
-- LeasedRef of conversation/db/leased_ref.go, and LeaseRef. The receivers are not nil; the mutex makes
-- each method one step.
use zoa.Base.{List, ◌+◌, Bool, true, false, Option, none, some, if◌then◌else◌}
use zoa.Base.Text.{Text, trim}
use zoa.Base.Stamp.{Instant}
use zoa.Base.Sql.{Result, ok, err, Db}
use zoa.Conversation.Tables.{RefRow, Tables, Error, lease_not_held, Codec, Node, Action}
use zoa.Conversation.Nodes.{load_chain}
use zoa.Conversation.Refs.{
  default_lease_duration, get_ref, advance_ref, acquire_lease, renew_lease, release_lease,
}

pub record LeasedRef : Type 0 where
  pub name : Text
  pub runner_id : Text
  pub hash : Text
  pub lease_until : Option Instant
  pub released : Bool

abbrev pub leased_ref : Text → RefRow → LeasedRef
leased_ref runner_id ref = record {
  name = ref.name;
  runner_id = trim runner_id;
  hash = ref.hash;
  lease_until = ref.lease_until;
  released = false;
}

-- After the lease: the ref, or the error after the release.
unfoldable pub leased_or :
    Text
    → Text
    → Instant
    → Result Error RefRow × Db Tables Error
    → Result Error LeasedRef × Db Tables Error
leased_or name runner_id now (ok ref, d) = (ok (leased_ref runner_id ref), d)
leased_or name runner_id now (err e, d) = (err e, (release_lease name runner_id now d).1)

unfoldable pub after_lease :
    Text
    → Text
    → Instant
    → Result Error (Unit {0}) × Db Tables Error
    → Result Error LeasedRef × Db Tables Error
after_lease name runner_id now (err e, d) = (err e, d)
after_lease name runner_id now (ok _, d) = leased_or name runner_id now (get_ref name d)

unfoldable pub lease_ref : Text → Text → Instant → Instant → Action LeasedRef
lease_ref name runner_id seen now d =
    after_lease name runner_id now (acquire_lease name runner_id default_lease_duration seen now d)

-- A method that may change the LeasedRef too.
abbrev pub Method : Type 0 → Type 0
Method A = LeasedRef → Db Tables Error → Result Error A × (LeasedRef × Db Tables Error)

-- The field `hash` after an append.
abbrev pub moved : Result Error Text → LeasedRef → LeasedRef
moved (ok hash) r = record r { hash = hash }
moved (err e) r = r

module _ (codec : Codec) where
  unfoldable pub append : codec.Message → Instant → Instant → Method Text
  append msg seen now r d =
      if r.released
      then (err lease_not_held, (r, d))
      else (let (result, d') = advance_ref codec r.name r.hash msg r.runner_id seen now d in
          (result, (moved result r, d')))

  unfoldable pub chain : LeasedRef → Action (List (Node codec.Message))
  chain r = load_chain codec r.hash

abbrev pub renewed_at : Result Error (Unit {0}) → Instant → LeasedRef → LeasedRef
renewed_at (ok _) now r = record r { lease_until = some (now + default_lease_duration) }
renewed_at (err e) now r = r

unfoldable pub renew : Instant → Method (Unit {0})
renew now r d =
    if r.released
    then (err lease_not_held, (r, d))
    else (let (result, d') = renew_lease r.name r.runner_id default_lease_duration now d in
        (result, (renewed_at result now r, d')))

abbrev pub closed_by : Result Error (Unit {0}) → LeasedRef → LeasedRef
closed_by (ok _) r = record r { released = true; lease_until = none }
closed_by (err e) r = r

unfoldable pub close : Instant → Method (Unit {0})
close now r d =
    if r.released
    then (ok tt, (r, d))
    else (let (result, d') = release_lease r.name r.runner_id now d in
        (result, (closed_by result r, d')))
