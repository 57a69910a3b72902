-- ===== src/Runtime/Log.antt =====
-- TaskLogState of runtime/log.go: the table runtime__task_log, its upsert, Get and Summaries. The map
-- of a task's input or output, and the messages of its conversation, are types that stay open.
pub mod Stored
pub mod Sequence
pub mod Fresh
pub mod Schema
mod Tests
use zoa.Base.{
  ℕ, zero, suc, Bool, true, false, not, ◌&&◌, ◌||◌, Option, none, some, List, [], ◌∷◌, ◌++◌, map,
  ltb, ◌==◌, if◌then◌else◌, select, select_first, take,
}
use zoa.Base.Int.{ℤ, pos, negsuc}
use zoa.Base.Text.{Text, codes, text_eq, is_empty, trim}
use zoa.Base.Stamp.{Instant, Stamp, format, stamp_le}
use zoa.Base.Stamp.Parse.{parse}
use zoa.Base.Sql.{Result, ok, err, Db, M, pure, raise, ◌>>=◌, exec, query}

abbrev pub Checked : Type 0 → Type 0
Checked = Result Text

-- runtime__task_log; `none` is NULL.
pub record Row : Type 0 where
  pub task_id : Text
  pub function_id : Text
  pub status : Text
  pub created_at : Stamp
  pub started_at : Option Stamp
  pub finished_at : Option Stamp
  pub output_json : Option Text
  pub error_text : Option Text
  pub hide_by_default : ℕ
  pub input_json : Option Text
  pub conversation_json : Option Text
  pub updated_at : Stamp

-- TaskLogRecord with its TaskSnapshot; `none` is nil.
pub record LogRecord (Object Messages : Type 0) : Type 0 where
  pub task_id : Text
  pub function_id : Text
  pub status : Text
  pub created_at : Instant
  pub started_at : Option Instant
  pub finished_at : Option Instant
  pub output : Option Object
  pub error_text : Text
  pub input : Option Object
  pub conversation : Option Messages
  pub hide_by_default : Bool
  pub updated_at : Instant

-- encoding/json on a type.
pub record Codec (A : Type 0) : Type 0 where
  pub marshal : A → Checked Text
  pub unmarshal : Text → Checked A

abbrev pub null : Text
null = codes "null"

-- json.Marshal; nil is written null.
abbrev pub marshal_value : {A : Type 0} → Codec A → Option A → Checked Text
marshal_value c none = ok null
marshal_value c (some a) = c.marshal a

abbrev pub text_or_empty : Option Text → Text
text_or_empty none = []
text_or_empty (some s) = s

abbrev pub map_option : {A B : Type 0} → (A → B) → Option A → Option B
map_option f none = none
map_option f (some a) = some (f a)

abbrev pub map_ok : {A B : Type 0} → (A → B) → Checked A → Checked B
map_ok f (ok a) = ok (f a)
map_ok f (err e) = err e

-- decodeJSONValue into a variable that is nil
unfoldable pub decode_json_value : {A : Type 0} → Codec A → Option Text → Checked (Option A)
decode_json_value c column =
    let text = trim (text_or_empty column) in
    if is_empty text || text_eq text null then ok none else map_ok some (c.unmarshal text)

abbrev pub bool_to_sqlite_int : Bool → ℕ
bool_to_sqlite_int true = 1
bool_to_sqlite_int false = 0

abbrev pub wrapped : {A : Type 0} → Text → Checked A → Checked A
wrapped text (ok a) = ok a
wrapped text (err e) = err (text ++ e)

infixl 5 ◌>>?◌
abbrev pub ◌>>?◌ : {A B : Type 0} → Checked A → (A → Checked B) → Checked B
ok a >>? f = f a
err e >>? f = err e

-- parseOptionalTimestamp; a text that does not parse is an error.
abbrev pub parsed : Option Instant → Checked Instant
parsed none = err (codes "cannot parse time")
parsed (some at) = ok at

abbrev pub parse_time : Stamp → Checked Instant
parse_time t = parsed (parse t)

abbrev pub parse_optional : Option Stamp → Checked (Option Instant)
parse_optional none = ok none
parse_optional (some t) = map_ok some (parse_time t)

abbrev pub row_of :
    {Object Messages : Type 0} → LogRecord Object Messages → Text → Text → Text → Row
row_of r input output conversation = record {
  task_id = r.task_id;
  function_id = r.function_id;
  status = r.status;
  created_at = format r.created_at;
  started_at = map_option format r.started_at;
  finished_at = map_option format r.finished_at;
  output_json = some output;
  error_text = some r.error_text;
  hide_by_default = bool_to_sqlite_int r.hide_by_default;
  input_json = some input;
  conversation_json = some conversation;
  updated_at = format r.updated_at;
}

module _ {Object Messages : Type 0} (json : Codec Object) (messages : Codec Messages) where
  -- The arguments of the statement of upsert.
  unfoldable pub encode_record : LogRecord Object Messages → Checked Row
  encode_record r = wrapped (codes "encode task input: ") (marshal_value json r.input) >>? λ input.
      (wrapped (codes "encode task output: ") (marshal_value json r.output) >>? λ output.
      (wrapped (codes "encode task conversation: ") (marshal_value messages r.conversation)
        >>? λ conversation. ok (row_of r input output conversation)))

  -- taskLogRecordFromRow
  unfoldable pub record_from_row : Row → Checked (LogRecord Object Messages)
  unfolding decode_json_value
  record_from_row row = parse_time row.created_at >>? λ created_at.
      (parse_optional row.started_at >>? λ started_at.
      (parse_optional row.finished_at >>? λ finished_at.
      (parse_time row.updated_at >>? λ updated_at.
      (decode_json_value json row.output_json >>? λ output.
      (decode_json_value json row.input_json >>? λ input.
      (decode_json_value messages row.conversation_json >>? λ conversation. ok record {
        task_id = row.task_id;
        function_id = row.function_id;
        status = trim row.status;
        created_at = created_at;
        started_at = started_at;
        finished_at = finished_at;
        output = output;
        error_text = text_or_empty row.error_text;
        input = input;
        conversation = conversation;
        hide_by_default = not (row.hide_by_default == 0);
        updated_at = updated_at;
      }))))))

-- INSERT ... ON CONFLICT(task_id) DO UPDATE, which sets every other column
unfoldable pub put_row : Row → List Row → List Row
put_row row [] = row ∷ []
put_row row (r ∷ rows) =
    let rest = put_row row rows in if text_eq r.task_id row.task_id then row ∷ rows else r ∷ rest

abbrev pub row_with : Text → List Row → Option Row
row_with id = select_first λ r. text_eq r.task_id id

abbrev pub lift : {T A : Type 0} → Checked A → M T Text A
lift r d = (r, d)

abbrev pub save_row : Row → M (List Row) Text (Unit {0})
save_row row = exec λ rows. (tt, put_row row rows)

module _ {Object Messages : Type 0} (json : Codec Object) (messages : Codec Messages) where
  unfoldable pub upsert : LogRecord Object Messages → M (List Row) Text (Unit {0})
  upsert r = lift (encode_record json messages r) >>= save_row

  abbrev pub decoded_row : Option Row → Checked (LogRecord Object Messages)
  decoded_row none = err (codes "unknown task_id")
  decoded_row (some row) = record_from_row json messages row

  abbrev pub fetched : Option Row → M (List Row) Text (LogRecord Object Messages)
  fetched o = lift (decoded_row o)

  -- Get
  unfoldable pub get_record : Text → M (List Row) Text (LogRecord Object Messages)
  get_record id = query (row_with id) >>= fetched

-- TaskLogSummary
pub record Summary : Type 0 where
  pub task_id : Text
  pub function_id : Text
  pub status : Text
  pub error_text : Text
  pub updated_at : Stamp
  pub hide_by_default : Bool

abbrev pub summary_of : Row → Summary
summary_of row = record {
  task_id = row.task_id;
  function_id = row.function_id;
  status = trim row.status;
  error_text = text_or_empty row.error_text;
  updated_at = row.updated_at;
  hide_by_default = not (row.hide_by_default == 0);
}

abbrev pub listed : Bool → Bool → Row → Bool
listed only_running include_hidden row =
    (not only_running || text_eq row.status (codes "running"))
    && (include_hidden || row.hide_by_default == 0)

-- ORDER BY updated_at DESC; rows with the same time, whose order SQLite leaves open, keep theirs.
unfoldable pub insert_latest : Row → List Row → List Row
insert_latest row [] = row ∷ []
insert_latest row (r ∷ rows) =
    let rest = insert_latest row rows in
    if stamp_le r.updated_at row.updated_at then row ∷ r ∷ rows else r ∷ rest

unfoldable pub latest_first : List Row → List Row
unfolding insert_latest
latest_first [] = []
latest_first (row ∷ rows) = insert_latest row (latest_first rows)

abbrev pub up_to : ℤ → List Row → List Row
up_to (pos zero) rows = rows
up_to (pos (suc n)) rows = take (suc n) rows
up_to (negsuc n) rows = rows

-- Summaries
unfoldable pub summaries : ℤ → Bool → Bool → M (List Row) Text (List Summary)
unfolding latest_first
summaries limit only_running include_hidden = query λ rows.
    map summary_of (up_to limit (latest_first (select (listed only_running include_hidden) rows)))
