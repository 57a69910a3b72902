-- ===== src/Runtime/Log/Tests.antt =====
-- The task log of runtime/log.go at concrete records.
use zoa.Base.{
  ◌≡◌, refl, ap, subst, Bool, true, false, none, some, List, [], ◌∷◌, arith, if◌then◌else◌, All,
}
use zoa.Base.Text.{Text, codes, text_eq, is_empty, is_space, trim_left, trim}
use zoa.Base.Sql.{ok, Db, exec, query}
use zoa.Runtime.Tasks.{spawn, persist_task, new_record, spawn_call, run, step}
use zoa.Runtime.Log.{Checked, Row, LogRecord, Codec, null, encode_record, upsert, put_row}
use zoa.Runtime.Log.Stored.{Restores, normalized, read_back, get_record-upsert}
use zoa.Runtime.Log.Sequence.{task_id_of, cast_integer, sequence_of, max_sequence}
use zoa.Runtime.Log.Fresh.{spawn-fresh}
use zoa.Runtime.Log.Schema.{Schema, init, migrate_from_lmfrt, ensure_column}

-- A bit, as an int or as a float64; encoding/json reads both as a float64.
data Bit : Type 0 where
  whole real : Bool → Bit

abbrev digit : Bool → Text
digit b = (if b then b'1' else b'0') ∷ []

abbrev to_real : Bit → Bit
to_real (whole b) = real b
to_real (real b) = real b

abbrev bit_of : Bit → Bool
bit_of (whole b) = b
bit_of (real b) = b

abbrev bit_json : Codec Bit
bit_json = record {
  marshal = λ v. ok (digit (bit_of v));
  unmarshal = λ s. ok (real (text_eq s (digit true)));
}

digit-Plain :
    (b : Bool)
    → (is_empty (digit b) ≡ false) × (text_eq (digit b) null ≡ false) × (trim (digit b) ≡ digit b)
unfolding trim trim_left is_space
digit-Plain true = (refl, refl, refl)
digit-Plain false = (refl, refl, refl)

digit_read : (v : Bit) → real (text_eq (digit (bit_of v)) (digit true)) ≡ to_real v
digit_read (whole true) = refl
digit_read (whole false) = refl
digit_read (real true) = refl
digit_read (real false) = refl

written : (s t : Text) → ◌≡◌ {A = Checked Text} (ok s) (ok t) → s ≡ t
written s t e = ground arith

bit_json-Restores : Restores bit_json to_real
bit_json-Restores = record {
  filled = λ v s e. subst (λ t. is_empty t ≡ false) (written _ s e) (digit-Plain (bit_of v)).0;
  not_null =
      λ v s e. subst (λ t. text_eq t null ≡ false) (written _ s e) (digit-Plain (bit_of v)).1;
  trimmed = λ v s e. subst (λ t. trim t ≡ t) (written _ s e) (digit-Plain (bit_of v)).2;
  restored = λ v s e.
      subst (λ t. bit_json.unmarshal t ≡ ok (to_real v)) (written _ s e) (ap ok (digit_read v));
}

abbrev first_task : LogRecord Bit Bit
first_task = record {
  task_id = codes "task-7";
  function_id = codes "gateway.pump";
  status = codes "running";
  created_at = 1_000_000_000;
  started_at = none;
  finished_at = none;
  output = none;
  error_text = [];
  input = some (whole true);
  conversation = some (whole false);
  hide_by_default = true;
  updated_at = 1_500_000_000;
}

abbrev empty_log : Db (List Row) Text
empty_log = record { tables = []; faults = [] }

get_record-upsert_example :
    read_back bit_json bit_json
      (codes "task-7")
      (upsert bit_json bit_json first_task empty_log).1.tables
    ≡ (if text_eq (codes "task-7") (codes "task-7")
        then ok (normalized to_real to_real first_task)
        else read_back bit_json bit_json (codes "task-7") [])
get_record-upsert_example =
    get_record-upsert bit_json bit_json to_real to_real first_task (codes "task-7") empty_log
      bit_json-Restores bit_json-Restores (unfold trim trim_left is_space in refl)
      (unfold upsert encode_record exec in refl)

abbrev rows : List Row
rows = (upsert bit_json bit_json first_task empty_log).1.tables

counts_on : max_sequence rows ≡ 7
unfolding max_sequence sequence_of cast_integer upsert encode_record exec put_row
counts_on = refl

spawn-fresh_example : All (λ r. text_eq r.task_id (task_id_of 9) ≡ false) rows
spawn-fresh_example =
    spawn-fresh rows (spawn_call none (codes "gateway.recv") 5 true ∷ []) none
      (codes "gateway.pump") 6 true 9
      (unfold spawn persist_task new_record run step max_sequence sequence_of cast_integer upsert
          encode_record exec put_row in
        refl)

abbrev old_schema : Schema
old_schema = record {
  old = some (record { rows = []; has_hide = false });
  log = none;
  old_index = true;
  index = false;
}

migrates : (init (record { tables = old_schema; faults = [] })).1.tables ≡ record {
  old = none;
  log = some (record { rows = []; has_hide = true });
  old_index = false;
  index = true;
}
unfolding init migrate_from_lmfrt ensure_column query exec
migrates = refl
