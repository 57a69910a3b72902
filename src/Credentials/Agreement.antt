-- ===== src/Credentials/Agreement.antt =====
-- internal/keys/keys.go reads dotenv files in two ways: LoadDotEnv sets the variables of a file, and
-- readDotEnvKey looks for one of them.
use zoa.Base.{
  ◌≡◌, refl, sym, ap, ◌∙◌, ◌⊎◌, inl, inr, false, ◌||◌, Option, none, some, List, [], ◌∷◌, arith,
  Bool-cases,
}
use zoa.Base.Text.{Text, text_eq, text_neq, is_empty}
use zoa.Base.Sql.{Result, ok, err}
use zoa.Credentials.Keys.{
  Env, variable, Line, blank, malformed, assigned, line_of, parse_value, found_value, read_line,
  read_key, has_zero, set_absent, set_parsed, load_line, then_load, load,
}

ok_inj : {A : Type 0} {a b : A} → ◌≡◌ {A = Result Text A} (ok a) (ok b) → a ≡ b
ok_inj e = ground arith

then_load_inv :
    (r : Result Text Env) (f : Env → Result Text Env) {env : Env}
    → then_load r f ≡ ok env
    → (mid : Env) × (r ≡ ok mid) × (f mid ≡ ok env)
then_load_inv (ok mid) f e = (mid, refl, e)
then_load_inv (err x) f e = absurd (cc)

set_absent_inv :
    (o : Option Text) (name value : Text) (env : Env) {after : Env}
    → set_absent o name value env ≡ ok after
    → ((v : Text) × (o ≡ some v) × (env ≡ after)) ⊎ ((o ≡ none) × ((name, value) ∷ env ≡ after))
set_absent_inv (some v) name value env e = inl (v, refl, ok_inj e)
set_absent_inv none name value env e = elim (Bool-cases (has_zero name || has_zero value)) [
  | inl y ↦ absurd (let h = rw y at e in cc)
  | inr n ↦ inr (refl, ok_inj (rw n at e))
]

set_parsed_inv :
    (name : Text) (o : Option Text) (env : Env) {after : Env}
    → set_parsed name o env ≡ ok after
    → (value : Text) × (o ≡ some value) × (set_absent (variable env name) name value env ≡ ok after)
set_parsed_inv name none env e = absurd (cc)
set_parsed_inv name (some value) env e = (value, refl, e)

variable_kept :
    (name value key v : Text) (env : Env)
    → variable env name ≡ none
    → variable env key ≡ some v
    → variable ((name, value) ∷ env) key ≡ some v
variable_kept name value key v env absent set =
    let apart : text_eq name key ≡ false =
      text_neq name key (λ e. cc (ap (variable env) e, absent, set)) in
    rw apart set

module _ (unquote : Text → Option Text) where
  -- What a line that is loaded does to a variable, and what readDotEnvKey reads of it.
  LineAgrees : Line → Text → Env → Env → Type 0
  LineAgrees l key env after =
      ((v : Text) → variable env key ≡ some v → variable after key ≡ some v)
      × (variable env key ≡ none
          → ((rest : Option Text) → read_line unquote l key rest ≡ rest)
              × (variable after key ≡ none)
            ⊎ (v : Text) × (variable after key ≡ some v)
              × ((rest : Option Text) → read_line unquote l key rest ≡ found_value (some v)))

  assigned_agrees :
      (name raw value key : Text) (env after : Env)
      → parse_value unquote raw ≡ some value
      → set_absent (variable env name) name value env ≡ ok after
      → LineAgrees (assigned name raw) key env after
  unfolding LineAgrees read_line
  assigned_agrees name raw value key env after parsed e =
      elim (set_absent_inv (variable env name) name value env e) [
        | inl (v, set, same) ↦ (
          λ w h. (ap (λ (u : Env). variable u key) (sym same) ∙ h),
          λ absent.
              let apart : text_eq name key ≡ false =
                text_neq name key (λ q. cc (ap (variable env) q, absent, set)) in
              inl (λ rest. (rw apart refl), ap (λ (u : Env). variable u key) (sym same) ∙ absent),
        )
        | inr (unset, same) ↦ (
          λ w h.
              (ap (λ (u : Env). variable u key) (sym same)
                ∙ variable_kept name value key w env unset h),
          λ absent. elim (Bool-cases (text_eq name key)) [
            | inl y ↦ inr (
              value,
              ap (λ (u : Env). variable u key) (sym same) ∙ (rw y refl),
              λ rest. (rw (y, parsed) refl),
            )
            | inr n ↦
                inl
                  (λ rest. (rw n refl), ap (λ (u : Env). variable u key) (sym same) ∙ (rw n absent))
          ],
        )
      ]

  line_agrees :
      (l : Line) (key : Text) (env after : Env)
      → load_line unquote l env ≡ ok after
      → LineAgrees l key env after
  unfolding LineAgrees load_line read_line
  line_agrees blank key env after e =
      let same : env ≡ after = ok_inj e in
      (
        λ v h. (ap (λ (u : Env). variable u key) (sym same) ∙ h),
        λ h. inl (λ rest. refl, ap (λ (u : Env). variable u key) (sym same) ∙ h),
      )
  line_agrees malformed key env after e = absurd (cc)
  line_agrees (assigned name raw) key env after e = elim (Bool-cases (is_empty name)) [
    | inl y ↦ absurd (let h = rw y at e in cc)
    | inr n ↦
        let (value, parsed, done) = set_parsed_inv name (parse_value unquote raw) env (rw n at e) in
        assigned_agrees name raw value key env after parsed done
  ]

  load-kept :
      (lines : List Text) (key v : Text) (env after : Env)
      → load unquote lines env ≡ ok after
      → variable env key ≡ some v
      → variable after key ≡ some v
  unfolding load LineAgrees
  load-kept [] key v env after e h = ap (λ (u : Env). variable u key) (sym (ok_inj e)) ∙ h
  load-kept (line ∷ lines) key v env after e h =
      let (mid, first, rest) =
        then_load_inv (load_line unquote (line_of line) env) (load unquote lines) e in
      load-kept lines key v mid after rest ((line_agrees (line_of line) key env mid first).0 v h)

  -- Where LoadDotEnv takes a file, a variable that was not set before has the value that readDotEnvKey
  -- finds in it, but for spaces around it; it is not set, or blank, where readDotEnvKey finds none.
  pub load-read_key :
      (lines : List Text) (key : Text) (env after : Env)
      → load unquote lines env ≡ ok after
      → variable env key ≡ none
      → read_key unquote lines key ≡ found_value (variable after key)
  unfolding load read_key LineAgrees
  load-read_key [] key env after e h =
      ap found_value (sym h ∙ ap (λ (u : Env). variable u key) (ok_inj e))
  load-read_key (line ∷ lines) key env after e h =
      let (mid, first, rest) =
        then_load_inv (load_line unquote (line_of line) env) (load unquote lines) e in
      elim ((line_agrees (line_of line) key env mid first).1 h) [
        | inl (read, unset) ↦
            read (read_key unquote lines key) ∙ load-read_key lines key mid after rest unset
        | inr (v, set, read) ↦
            read (read_key unquote lines key)
            ∙ ap found_value (sym (load-kept lines key v mid after rest set))
      ]
