-- ===== src/Conversation/Refs.antt =====
-- conversation/db/ref.go and conversation/db/lease.go. `seen` is the clock when a lease is looked at,
-- `now` the clock when a row is written.
use zoa.Base.{
  ℕ, ◌+◌, ◌*◌, Bool, true, false, ◌&&◌, not, Option, none, some, List, [], ◌∷◌, leb, if◌then◌else◌,
  select_first, update_where,
}
use zoa.Base.Text.{Text, codes, text_eq, is_empty, trim}
use zoa.Base.Stamp.{Instant, second}
use zoa.Base.Sql.{pure, raise, ◌>>=◌, ◌>>◌, exec, query, transaction}
use zoa.Conversation.Tables.{
  RefRow, Tables, ref_not_found, ref_moved, ref_leased, lease_not_held, message, Codec, Action,
  or_root,
}
use zoa.Conversation.Nodes.{ensure_node_exists, found_or, insert_node}

abbrev pub default_lease_duration : ℕ
default_lease_duration = 30 * second

-- leaseExpired; `none` is the zero time
abbrev pub lease_expired : Option Instant → Instant → Bool
lease_expired none now = false
lease_expired (some until) now = leb until now

-- SELECT … FROM conversation_ref WHERE name = ?
abbrev pub find_ref : Text → List RefRow → Option RefRow
find_ref name = select_first λ r. text_eq r.name name

-- GetRef, and the query of loadRefForUpdate
unfoldable pub get_ref : Text → Action RefRow
get_ref name = query (λ t. find_ref (trim name) t.refs) >>= found_or {A = RefRow} ref_not_found

-- UPDATE conversation_ref SET f WHERE p
unfoldable pub update_refs : (RefRow → Bool) → (RefRow → RefRow) → Tables → (Unit {0}) × Tables
update_refs p f t = (tt, record t { refs = update_where p f t.refs })

-- INSERT INTO conversation_ref …; `false` is a name that is taken
unfoldable pub add_ref : Text → Text → Instant → Tables → Bool × Tables
add_ref name hash now t = elim (find_ref name t.refs) [
  | some _ ↦ (false, t)
  | none ↦ (
    true,
    record t {
      refs =
          (record {
            name = name;
            hash = hash;
            leased_by = [];
            lease_until = none;
            updated_at = now;
          })
          ∷ t.refs;
    },
  )
]

abbrev pub created : Bool → Action (Unit {0})
created true = pure tt
created false = raise (message (codes "create ref"))

unfoldable pub create_ref : Codec → Text → Text → Instant → Action (Unit {0})
create_ref codec name hash now =
    if is_empty (trim name)
    then raise (message (codes "ref name is required"))
    else (ensure_node_exists (or_root codec hash)
        >> (exec (add_ref (trim name) (or_root codec hash) now) >>= created))

-- Someone else holds the lease.
abbrev pub leased_away : RefRow → Text → Instant → Bool
leased_away ref runner_id seen =
    not (is_empty ref.leased_by)
    && (not (text_eq ref.leased_by runner_id) && not (lease_expired ref.lease_until seen))

module _ (codec : Codec) where
  unfoldable pub advance :
      Text → Text → codec.Message → Text → Instant → Instant → RefRow → Action Text
  advance name expect_hash msg runner_id seen now ref =
      if text_eq ref.hash expect_hash
      then (if leased_away ref runner_id seen
          then raise ref_leased
          else (insert_node codec expect_hash msg now >>= λ new_hash.
              exec (
                update_refs (λ r. text_eq r.name name && text_eq r.hash expect_hash)
                  λ r. record r { hash = new_hash; updated_at = now })
              >> pure new_hash))
      else raise ref_moved

  unfoldable pub advance_ref : Text → Text → codec.Message → Text → Instant → Instant → Action Text
  advance_ref name expect_hash msg runner_id seen now =
      transaction (get_ref name >>= advance name expect_hash msg runner_id seen now)

abbrev pub leased : Text → Instant → Instant → RefRow → RefRow
leased runner_id until now r = record r {
  leased_by = runner_id;
  lease_until = some until;
  updated_at = now;
}

unfoldable pub take_lease : Text → Text → ℕ → Instant → Instant → RefRow → Action (Unit {0})
take_lease name runner_id duration seen now ref =
    if leased_away ref runner_id seen
    then raise ref_leased
    else exec (update_refs (λ r. text_eq r.name name) (leased runner_id (now + duration) now))

unfoldable pub acquire_lease : Text → Text → ℕ → Instant → Instant → Action (Unit {0})
acquire_lease name runner_id duration seen now =
    if is_empty (trim runner_id)
    then raise (message (codes "runner id is required"))
    else transaction (get_ref name >>= take_lease name runner_id duration seen now)

unfoldable pub extend_lease : Text → Text → ℕ → Instant → RefRow → Action (Unit {0})
extend_lease name runner_id duration now ref =
    if text_eq ref.leased_by runner_id
    then exec (
        update_refs (λ r. text_eq r.name name)
          λ r. record r { lease_until = some (now + duration); updated_at = now })
    else raise lease_not_held

unfoldable pub renew_lease : Text → Text → ℕ → Instant → Action (Unit {0})
renew_lease name runner_id duration now =
    transaction (get_ref name >>= extend_lease name runner_id duration now)

unfoldable pub release_lease : Text → Text → Instant → Action (Unit {0})
release_lease name runner_id now = exec (
    update_refs (λ r. text_eq r.name name && text_eq r.leased_by runner_id)
      λ r. record r { leased_by = []; lease_until = none; updated_at = now })
