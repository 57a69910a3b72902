-- ===== src/Gateway/Outbox.antt =====
-- The outbox of hub/util/gateway/state.go.
use mathlib.Core.List.{reverse}
use zoa.Base.{
  ℕ, suc, Option, none, some, List, [], ◌∷◌, ◌++◌, map, ltb, ◌&&◌, take, select, count_where,
  if◌then◌else◌,
}
use zoa.Base.Int.{ℤ, pos, negsuc, lt_nat}
use zoa.Base.Text.{Text, text_eq, trim}
use zoa.Base.Stamp.{Instant, format}
use zoa.Base.Sql.{exec, query}
use zoa.Gateway.Tables.{Outbox, Tables, OutboxRow, Action}

-- INSERT INTO gateway__outbox …
unfoldable pub add_outbox : Text → Text → Text → Option ℕ → Instant → Tables → ℕ × Tables
add_outbox session channel text in_reply_to at t =
    (id, record t { outbox = t.outbox ++ (row ∷ []); outbox_seq = id })
  where
    id : ℕ
    id = suc t.outbox_seq

    row : Outbox
    row = record {
      id = id;
      session = session;
      channel = channel;
      text = text;
      in_reply_to = in_reply_to;
      sent_at = format at;
    }

unfoldable pub tx_insert_outbox : Text → Text → Text → Option ℕ → Instant → Action ℕ
tx_insert_outbox session channel text in_reply_to at =
    exec (add_outbox session (trim channel) text in_reply_to at)

unfoldable pub insert_outbox : Text → Text → Text → Option ℕ → Instant → Action ℕ
insert_outbox session channel text in_reply_to at =
    exec (add_outbox session (trim channel) text in_reply_to at)

-- COALESCE(in_reply_to, 0)
abbrev pub reply_or_zero : Option ℕ → ℕ
reply_or_zero none = 0
reply_or_zero (some id) = id

unfoldable pub outbox_row : Outbox → OutboxRow
outbox_row r = record {
  id = r.id;
  session = r.session;
  channel = r.channel;
  text = r.text;
  in_reply_to = reply_or_zero r.in_reply_to;
  sent_at = r.sent_at;
}

-- LIMIT, which a negative number switches off
abbrev pub limited {ℓ} : {A : Type ℓ} → ℤ → List A → List A
limited (pos n) rows = take n rows
limited (negsuc n) rows = rows

unfoldable pub outbox_since : Text → ℤ → ℤ → Action (List OutboxRow)
unfolding outbox_row
outbox_since session last limit = query λ t.
    map outbox_row
      (limited limit (select (λ r. lt_nat last r.id && text_eq r.session session) t.outbox))

unfoldable pub recent_outbox : Text → ℤ → Action (List OutboxRow)
unfolding outbox_row
recent_outbox session limit =
    query λ t.
      map outbox_row (limited limit (reverse (select (λ r. text_eq r.session session) t.outbox)))

-- MAX(id), 0 over no row
abbrev pub max_id : ℕ → List Outbox → ℕ
max_id m [] = m
max_id m (r ∷ rs) = max_id (if ltb m r.id then r.id else m) rs

unfoldable pub outbox_max_id : Text → Action ℕ
outbox_max_id session = query λ t. max_id 0 (select (λ r. text_eq r.session session) t.outbox)

unfoldable pub outbox_count : Text → Action ℕ
outbox_count session = query λ t. count_where (λ r. text_eq r.session session) t.outbox
