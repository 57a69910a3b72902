-- ===== src/Runtime/Log/Stored.antt =====
-- What upsert of runtime/log.go stores and Get reads again.
use zoa.Base.{
  ◌≡◌, refl, sym, ap, subst, ◌∙◌, inl, inr, Bool, true, false, not, Option, none, some, List, [],
  ◌∷◌, arith, ◌==◌, if◌then◌else◌, Bool-cases,
}
use zoa.Base.Text.{
  Text, codes, text_eq, text_eq_sound, text_eq_refl, text_neq, is_empty, is_space, trim_left, trim,
}
use zoa.Base.Stamp.{Instant, format}
use zoa.Base.Stamp.Parse.{parse-format}
use zoa.Base.Sql.{ok, err, Db, ◌>>=◌, exec, query}
use zoa.Base.Sql.Laws.{exec_cases}
use zoa.Runtime.Log.{
  Checked, bool_to_sqlite_int, Row, LogRecord, Codec, null, marshal_value, map_option,
  decode_json_value, wrapped, ◌>>?◌, row_of, encode_record, parse_time, parse_optional,
  record_from_row, put_row, row_with, lift, save_row, upsert, decoded_row, get_record,
}

-- What encoding/json does with the values that it has written itself: they are texts with no space
-- around them, other than null, and are read again as `norm` of what they were. Unmarshal into an
-- `any` makes every number a float64, so that `norm` turns ints to float64.
pub record Restores {A : Type 0} (c : Codec A) (norm : A → A) : Type 0 where
  pub filled : (a : A) (s : Text) → c.marshal a ≡ ok s → is_empty s ≡ false
  pub not_null : (a : A) (s : Text) → c.marshal a ≡ ok s → text_eq s null ≡ false
  pub trimmed : (a : A) (s : Text) → c.marshal a ≡ ok s → trim s ≡ s
  pub restored : (a : A) (s : Text) → c.marshal a ≡ ok s → c.unmarshal s ≡ ok (norm a)

restored_value :
    {A : Type 0} (c : Codec A) (norm : A → A) (a : A) (s : Text)
    → Restores c norm
    → c.marshal a ≡ ok s
    → decode_json_value c (some s) ≡ ok (some (norm a))
unfolding decode_json_value
restored_value c norm a s h e =
    rw (h.trimmed a s e, h.filled a s e, h.not_null a s e, h.restored a s e) refl

hidden : (b : Bool) → not (bool_to_sqlite_int b == 0) ≡ b
hidden true = refl
hidden false = refl

decode-marshal :
    {A : Type 0} (c : Codec A) (norm : A → A) (o : Option A) (s : Text)
    → Restores c norm
    → marshal_value c o ≡ ok s
    → decode_json_value c (some s) ≡ ok (map_option norm o)
unfolding decode_json_value trim trim_left is_space
decode-marshal c norm none s h e =
    let same : null ≡ s = ground arith in
    subst (λ t. decode_json_value c (some t) ≡ ok none) same refl
decode-marshal c norm (some a) s h e = restored_value c norm a s h e

parse_time-format : (t : Instant) → parse_time (format t) ≡ ok t
parse_time-format t = rw (parse-format t) refl

parse_optional-format : (o : Option Instant) → parse_optional (map_option format o) ≡ ok o
parse_optional-format none = refl
parse_optional-format (some t) = rw (parse-format t) refl

bind_inv :
    {A B : Type 0} (r : Checked A) (f : A → Checked B) {b : B}
    → (r >>? f) ≡ ok b
    → (a : A) × (r ≡ ok a) × (f a ≡ ok b)
bind_inv (ok a) f e = (a, refl, e)
bind_inv (err x) f e = absurd (cc)

wrapped_inv : {A : Type 0} (text : Text) (r : Checked A) {a : A} → wrapped text r ≡ ok a → r ≡ ok a
wrapped_inv text (ok a) e = e
wrapped_inv text (err x) e = absurd (cc)

-- The record with its values as encoding/json reads them again.
abbrev pub normalized :
    {Object Messages : Type 0}
    → (Object → Object)
    → (Messages → Messages)
    → LogRecord Object Messages
    → LogRecord Object Messages
normalized norm norm_messages r = record r {
  input = map_option norm r.input;
  output = map_option norm r.output;
  conversation = map_option norm_messages r.conversation;
}

module _ {Object Messages : Type 0} (json : Codec Object) (messages : Codec Messages)
    (norm : Object → Object) (norm_messages : Messages → Messages) (objects : Restores json norm)
    (texts : Restores messages norm_messages) (r : LogRecord Object Messages) where
  decode-row_of :
      (i o c : Text)
      → trim r.status ≡ r.status
      → marshal_value json r.input ≡ ok i
      → marshal_value json r.output ≡ ok o
      → marshal_value messages r.conversation ≡ ok c
      → record_from_row json messages (row_of r i o c) ≡ ok (normalized norm norm_messages r)
  unfolding record_from_row
  decode-row_of i o c status hi ho hc =
      rw
        (
          parse_time-format r.created_at,
          parse_optional-format r.started_at,
          parse_optional-format r.finished_at,
          parse_time-format r.updated_at,
          decode-marshal json norm r.output o objects ho,
          decode-marshal json norm r.input i objects hi,
          decode-marshal messages norm_messages r.conversation c texts hc,
          status,
        )
        (ap (λ h. ok (record (normalized norm norm_messages r) { hide_by_default = h }))
          (hidden r.hide_by_default))

  -- What upsert encodes is decoded to the record.
  encode_record-restored :
      (row : Row)
      → trim r.status ≡ r.status
      → encode_record json messages r ≡ ok row
      → (record_from_row json messages row ≡ ok (normalized norm norm_messages r))
        × (row.task_id ≡ r.task_id)
  unfolding encode_record
  encode_record-restored row status e =
      let (i, ei, e1) =
        bind_inv (wrapped (codes "encode task input: ") (marshal_value json r.input)) _ e in
      let (o, eo, e2) =
        bind_inv (wrapped (codes "encode task output: ") (marshal_value json r.output)) _ e1 in
      let (c, ec, e3) =
        bind_inv
          (wrapped (codes "encode task conversation: ") (marshal_value messages r.conversation)) _
          e2 in
      let same : row_of r i o c ≡ row = ground arith in
      subst
        (λ w.
          (record_from_row json messages w ≡ ok (normalized norm norm_messages r))
          × (w.task_id ≡ r.task_id))
        same
        (
          decode-row_of i o c status (wrapped_inv (codes "encode task input: ") _ ei)
              (wrapped_inv (codes "encode task output: ") _ eo)
              (wrapped_inv (codes "encode task conversation: ") _ ec),
          refl,
        )

row_with-put_row :
    (row : Row) (rows : List Row) (id : Text)
    → row_with id (put_row row rows)
      ≡ (if text_eq row.task_id id then some row else row_with id rows)
unfolding put_row
row_with-put_row row [] id = refl
row_with-put_row row (r ∷ rows) id = elim (Bool-cases (text_eq r.task_id row.task_id)) [
  | inl y ↦ let same = text_eq_sound r.task_id row.task_id y in rw (y, same) (ground arith)
  | inr n ↦ rw n (elim (Bool-cases (text_eq r.task_id id)) [
    | inl z ↦
        let apart : text_eq row.task_id id ≡ false = text_neq row.task_id id (λ e. cc (
          ap (text_eq r.task_id) (e ∙ sym (text_eq_sound r.task_id id z)),
          text_eq_refl r.task_id,
          n,
        )) in
        rw (z, apart) refl
    | inr m ↦ rw m (row_with-put_row row rows id)
  ])
]

module _ {Object Messages : Type 0} (json : Codec Object) (messages : Codec Messages) where
  abbrev pub read_back : Text → List Row → Checked (LogRecord Object Messages)
  read_back id rows = (get_record json messages id (record { tables = rows; faults = [] })).0

  read_back_decoded :
      (id : Text) (rows : List Row)
      → read_back id rows ≡ decoded_row json messages (row_with id rows)
  unfolding get_record query exec
  read_back_decoded id rows = refl

  stored :
      (r : LogRecord Object Messages) (d : Db (List Row) Text)
      → (upsert json messages r d).0 ≡ ok tt
      → (row : Row) × (encode_record json messages r ≡ ok row)
        × ((upsert json messages r d).1.tables ≡ put_row row d.tables)
  unfolding upsert
  stored r d h = by_row (encode_record json messages r) refl h
    where
      by_row :
          (o : Checked Row)
          → encode_record json messages r ≡ o
          → ((lift o >>= save_row) d).0 ≡ ok tt
          → (row : Row) × (encode_record json messages r ≡ ok row)
            × (((lift o >>= save_row) d).1.tables ≡ put_row row d.tables)
      by_row (err x) e h = absurd (cc)
      by_row (ok row) e h = elim (exec_cases (λ rows. (tt, put_row row rows)) d) [
        | inl (x, failed, _) ↦ absurd (cc)
        | inr (_, done) ↦ (row, e, done)
      ]

  by_id :
      (r : LogRecord Object Messages) (row : Row) (b : Bool) (o : Option Row)
      → record_from_row json messages row ≡ ok r
      → decoded_row json messages (if b then some row else o)
        ≡ (if b then ok r else decoded_row json messages o)
  by_id r row true o e = e
  by_id r row false o e = refl

  -- After an upsert that succeeds, Get of the task's id gives the record, whatever was stored before,
  -- and Get of another id gives what it gave. The input, the output and the conversation come back as
  -- encoding/json reads again what it has written, which makes every number of the objects a float64;
  -- all the other fields are the same. The status has no space around it.
  pub get_record-upsert :
      (norm : Object → Object) (norm_messages : Messages → Messages) (r : LogRecord Object Messages)
      (id : Text) (d : Db (List Row) Text)
      → Restores json norm
      → Restores messages norm_messages
      → trim r.status ≡ r.status
      → (upsert json messages r d).0 ≡ ok tt
      → read_back id (upsert json messages r d).1.tables ≡ (
          if text_eq r.task_id id
          then ok (normalized norm norm_messages r)
          else read_back id d.tables)
  get_record-upsert norm norm_messages r id d objects texts status h =
      let (row, e, same) = stored r d h in
      let (decoded, named) =
        encode_record-restored json messages norm norm_messages objects texts r row status e in
      rw
        (
          same,
          read_back_decoded id (put_row row d.tables),
          row_with-put_row row d.tables id,
          named,
          read_back_decoded id d.tables,
        )
        (by_id (normalized norm norm_messages r) row (text_eq r.task_id id) (row_with id d.tables)
          decoded)
