-- ===== src/Gateway/Tables.antt =====
-- The tables of hub/util/gateway/state.go (initSchema) and the rows that its queries return.
-- A table is the list of its rows in the order of the primary key, in which SQLite scans it.
use zoa.Base.{ℕ, Bool, true, false, ◌||◌, Option, List, []}
use zoa.Base.Int.{ℤ}
use zoa.Base.Text.{Text}
use zoa.Base.Stamp.{Stamp}
use zoa.Base.Sql.{M}

pub data Status : Type 0 where
  pending processing done failed : Status

-- gateway__inbound
pub record Inbound : Type 0 where
  pub id : ℕ
  pub session : Text
  pub channel : Text
  pub text : Text
  pub input_json : Text
  pub received_at : Stamp
  pub status : Status
  pub attempt_count : ℕ
  pub next_attempt_at : Option Stamp
  pub lease_until : Option Stamp
  pub processed_at : Option Stamp
  pub error_text : Option Text

-- gateway__outbox
pub record Outbox : Type 0 where
  pub id : ℕ
  pub session : Text
  pub channel : Text
  pub text : Text
  pub in_reply_to : Option ℕ
  pub sent_at : Stamp

-- The two tables, with the greatest id that AUTOINCREMENT has given out for each.
pub record Tables : Type 0 where
  pub inbound : List Inbound
  pub inbound_seq : ℕ
  pub outbox : List Outbox
  pub outbox_seq : ℕ

abbrev pub no_tables : Tables
no_tables = record { inbound = []; inbound_seq = 0; outbox = []; outbox_seq = 0 }

-- A Go error: the sentinel errInboundLeaseLost, or any other by its text.
pub data Error : Type 0 where
  lease_lost : Error
  message : Text → Error

-- Values of map[string]any. `whole n` is an int or an int64; FloatInput, which refuses an int64, is
-- applied to no entry that can be one. `real n k` is the float64 n / 2 ^ k, a finite one.
pub data Value : Type 0 where
  string : Text → Value
  flag : Bool → Value
  whole : ℤ → Value
  real : ℤ → ℕ → Value
  other : Value

abbrev pub Fields : Type 0
Fields = List (Text × Value)

-- encoding/json on the pump input: `none` is an error of Marshal or Unmarshal.
pub record Json : Type 0 where
  pub marshal : Fields → Option Text
  pub unmarshal : Text → Option Fields

-- type inboundRow
pub record InboundRow : Type 0 where
  pub id : ℕ
  pub attempt : ℕ
  pub session : Text
  pub channel : Text
  pub text : Text
  pub received_at : Stamp
  pub pump_input : Fields

-- type outboxRow; `in_reply_to` is 0 for NULL
pub record OutboxRow : Type 0 where
  pub id : ℕ
  pub session : Text
  pub channel : Text
  pub text : Text
  pub in_reply_to : ℕ
  pub sent_at : Stamp

abbrev pub Action : Type 0 → Type 0
Action = M Tables Error

abbrev pub is_pending : Status → Bool
is_pending pending = true
is_pending processing = false
is_pending done = false
is_pending failed = false

abbrev pub is_processing : Status → Bool
is_processing pending = false
is_processing processing = true
is_processing done = false
is_processing failed = false

-- status IN ('pending', 'processing')
abbrev pub is_open : Status → Bool
is_open s = is_pending s || is_processing s
