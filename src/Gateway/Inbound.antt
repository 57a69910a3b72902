-- ===== src/Gateway/Inbound.antt =====
-- The inbound queue of hub/util/gateway/state.go. Times are arguments, as in the source.
use zoa.Base.{
  ℕ, zero, suc, ◌+◌, ◌*◌, Bool, ◌&&◌, ◌||◌, not, Option, none, some, [], ◌∷◌, ◌++◌, ◌==◌, leb,
  if◌then◌else◌, select_first, count_where, update_where,
}
use zoa.Base.Int.{ℤ, positive_or}
use zoa.Base.Text.{Text, codes, text_eq, is_empty, trim}
use zoa.Base.Stamp.{Instant, Stamp, second, format, null_or_le}
use zoa.Base.Sql.{pure, raise, ◌>>=◌, exec, query, transaction}
use zoa.Gateway.Tables.{
  pending, processing, Inbound, Tables, message, Fields, Json, InboundRow, Action, is_pending,
  is_processing, is_open,
}

abbrev pub fields_or_empty : Option Fields → Fields
fields_or_empty none = []
fields_or_empty (some fields) = fields

-- INSERT INTO gateway__inbound …
unfoldable pub add_inbound : Text → Text → Text → Text → Instant → Tables → ℕ × Tables
add_inbound session channel text json at t =
    (id, record t { inbound = t.inbound ++ (row ∷ []); inbound_seq = id })
  where
    id : ℕ
    id = suc t.inbound_seq

    row : Inbound
    row = record {
      id = id;
      session = session;
      channel = channel;
      text = text;
      input_json = json;
      received_at = format at;
      status = pending;
      attempt_count = 0;
      next_attempt_at = some (format at);
      lease_until = none;
      processed_at = none;
      error_text = none;
    }

-- A nil `pumpInput` is `none`.
unfoldable pub insert_inbound : Json → Text → Text → Text → Option Fields → Instant → Action ℕ
insert_inbound json session channel text pump_input at =
    elim (json.marshal (fields_or_empty pump_input)) [
      | none ↦ raise (message (codes "encode inbound pump input"))
      | some input_json ↦ exec (add_inbound session (trim channel) text input_json at)
    ]

-- UPDATE gateway__inbound SET f WHERE p, with the number of rows affected
unfoldable pub update_inbound : (Inbound → Bool) → (Inbound → Inbound) → Tables → ℕ × Tables
update_inbound p f t = (count_where p t.inbound, record t { inbound = update_where p f t.inbound })

-- `if leaseDuration <= 0 { leaseDuration = time.Minute }`
abbrev pub lease_or_minute : ℤ → ℕ
lease_or_minute = positive_or (60 * second)

abbrev pub in_line : Text → Inbound → Bool
in_line session r = text_eq r.session session && is_open r.status

abbrev pub claimable : ℕ → Stamp → Inbound → Bool
claimable id now r =
    r.id == id
    && ((is_pending r.status && null_or_le r.next_attempt_at now)
        || (is_processing r.status && null_or_le r.lease_until now))

abbrev pub claimed : Stamp → Inbound → Inbound
claimed until r = record r {
  status = processing;
  attempt_count = r.attempt_count + 1;
  lease_until = some until;
  processed_at = none;
}

unfoldable pub claim_head : Instant → ℕ → Option Inbound → Action ℕ
claim_head now lease none = pure 0
claim_head now lease (some head) = do
  affected ← exec (update_inbound (claimable head.id (format now)) (claimed (format (now + lease))))
  pure (if affected == 0 then 0 else head.id)

-- 0 is "nothing claimed".
unfoldable pub claim_due_inbound_id : Text → Instant → ℤ → Action ℕ
unfolding claim_head
claim_due_inbound_id session now lease = transaction do
  head ← query (λ t. select_first (in_line session) t.inbound)
  claim_head now (lease_or_minute lease) head

unfoldable pub decode_input : Json → Text → Action Fields
decode_input json raw = if is_empty raw then pure [] else elim (json.unmarshal raw) [
  | none ↦ raise (message (codes "decode inbound pump input"))
  | some fields ↦ pure fields
]

unfoldable pub decode_row : Json → Option Inbound → Action (Option InboundRow)
decode_row json none = pure none
decode_row json (some r) = do
  fields ← decode_input json (trim r.input_json)
  pure (
      some (record {
        id = r.id;
        attempt = if leb 1 r.attempt_count then r.attempt_count else 1;
        session = r.session;
        channel = r.channel;
        text = r.text;
        received_at = r.received_at;
        pump_input = fields;
      }))

unfoldable pub inbound_by_id : Json → ℕ → Action (Option InboundRow)
unfolding decode_row decode_input
inbound_by_id json id = do
  found ← query (λ t. select_first (λ r. r.id == id) t.inbound)
  decode_row json found

-- The row of a claimed id, or the next round where it has gone.
unfoldable pub or_again :
    Action (Option InboundRow) → Option InboundRow → Action (Option InboundRow)
or_again again none = again
or_again again (some row) = pure (some row)

unfoldable pub row_of_claim : Json → Action (Option InboundRow) → ℕ → Action (Option InboundRow)
unfolding or_again
row_of_claim json again zero = pure none
row_of_claim json again (suc n) = inbound_by_id json (suc n) >>= or_again again

-- The loop of claimDueInbound, by the attempts that are left.
unfoldable pub claim_loop : ℕ → Json → Text → Instant → ℤ → Action (Option InboundRow)
unfolding row_of_claim
claim_loop zero json session now lease = pure none
claim_loop (suc attempts) json session now lease =
    claim_due_inbound_id session now lease
    >>= row_of_claim json (claim_loop attempts json session now lease)

unfoldable pub claim_due_inbound : Json → Text → Instant → ℤ → Action (Option InboundRow)
unfolding claim_loop
claim_due_inbound json session now lease = claim_loop 3 json session now lease

-- WHERE id = ? AND status = 'processing' AND attempt_count = ?
abbrev pub held : ℕ → ℕ → Inbound → Bool
held id attempt r = r.id == id && (is_processing r.status && r.attempt_count == attempt)

abbrev pub some_row : ℕ → Bool
some_row n = not (n == 0)

abbrev pub renewed : Stamp → Inbound → Inbound
renewed until r = record r { lease_until = some until }

-- `false` is "the lease is lost".
unfoldable pub renew_inbound_lease : ℕ → ℕ → Instant → ℤ → Action Bool
renew_inbound_lease id attempt now lease = do
  affected ←
      exec (update_inbound (held id attempt) (renewed (format (now + lease_or_minute lease))))
  pure (some_row affected)

abbrev pub retried : Text → Stamp → Inbound → Inbound
retried error next r = record r {
  status = pending;
  next_attempt_at = some next;
  lease_until = none;
  processed_at = none;
  error_text = some error;
}

unfoldable pub mark_inbound_retry : ℕ → ℕ → Text → Instant → Action Bool
mark_inbound_retry id attempt error next = do
  affected ← exec (update_inbound (held id attempt) (retried (trim error) (format next)))
  pure (some_row affected)

unfoldable pub pending_count : Text → Action ℕ
pending_count session =
    query (λ t. count_where (λ r. text_eq r.session session && is_pending r.status) t.inbound)

unfoldable pub processing_count : Text → Action ℕ
processing_count session =
    query (λ t. count_where (λ r. text_eq r.session session && is_processing r.status) t.inbound)
