-- ===== src/Gateway/Inputs/Settings.antt =====
-- What gateway.recv stores of its input, against what processChatMessage reads of it, both of
-- hub/util/gateway/functions.go.
use zoa.Base.{
  ℕ, zero, suc, ◌≡◌, refl, sym, ap, subst, ◌∙◌, Bool, true, false, Option, none, some, [], ◌∷◌,
  if◌then◌else◌, arith,
}
use zoa.Base.Int.{ℤ, pos, negsuc}
use zoa.Base.Text.{Text, codes, is_empty, trim}
use zoa.Base.Text.Trimmed.{trim-trim}
use zoa.Base.Sql.{ok, err}
use zoa.Gateway.Tables.{real, Fields}
use zoa.Gateway.Inputs.{
  Checked, ◌>>?◌, field, string_field, string_input, int_field, int_input, real_field, float_input,
  Real, filled, above_zero, seconds_value, timeout_field, is_zero, not_zero, pump_input,
}
use zoa.Gateway.Inputs.Chat.{
  turns_or, temperature_or, Models, Chat, with_model, model_or_default, directory, timeout_or,
  chat_of, chat_with, chat_settings,
}
use zoa.Gateway.Inputs.Entries.{
  written, field_cwd, field_model, field_turns, field_timeout, field_temperature,
}

abbrev pub map_ok : {A B : Type 0} → (A → B) → Checked A → Checked B
map_ok f (ok a) = ok (f a)
map_ok f (err e) = err e

bind_inv :
    {A B : Type 0} (r : Checked A) (f : A → Checked B) {b : B}
    → (r >>? f) ≡ ok b
    → (a : A) × (r ≡ ok a) × (f a ≡ ok b)
bind_inv (ok a) f e = (a, refl, e)
bind_inv (err x) f e = absurd (cc)

string_filled : (s key : Text) → string_field (filled s) key false ≡ ok s
string_filled [] key = refl
string_filled (c ∷ s) key = refl

turns_above_zero :
    (n : ℤ) (key : Text) (default : ℕ) (k : ℕ → Checked Chat)
    → (int_field (above_zero n) key false >>? λ m. k (turns_or default m)) ≡ k (turns_or default n)
turns_above_zero (pos zero) key default k = refl
turns_above_zero (pos (suc n)) key default k = refl
turns_above_zero (negsuc n) key default k = refl

timeout_seconds : (o : Option ℕ) → timeout_field (seconds_value o) ≡ ok o
timeout_seconds none = refl
timeout_seconds (some n) = refl

temperature_not_zero :
    (t : Real) (key : Text) (default : Real) (k : Real → Checked Chat)
    → (real_field (not_zero t) key false >>? λ u. k (temperature_or default u))
      ≡ k (temperature_or default t)
temperature_not_zero (n, d) key default k = by_sign (is_zero n) refl
  where
    by_sign :
        (b : Bool)
        → is_zero n ≡ b
        → (real_field (if b then none else some (real n d)) key false >>? λ u.
            k (temperature_or default u))
          ≡ k (if b then default else (n, d))
    by_sign true e = refl
    by_sign false e = rw e refl

-- The directory without the spaces around it.
abbrev pub map_directory : Option Text → Option Text
map_directory none = none
map_directory (some s) = some (trim s)

abbrev pub trimmed_cwd : Chat → Chat
trimmed_cwd c = record c { cwd = map_directory c.cwd }

directory-trim : (s : Text) → directory (trim s) ≡ map_directory (directory s)
directory-trim s = rw (trim-trim s) (by_text (is_empty (trim s)))
  where
    by_text :
        (b : Bool)
        → (if b then none else some (trim s)) ≡ map_directory (if b then none else some s)
    by_text true = refl
    by_text false = refl

under :
    {A : Type 0} (r : Checked A) (f g : A → Checked Chat)
    → ((a : A) → f a ≡ map_ok trimmed_cwd (g a))
    → (r >>? f) ≡ map_ok trimmed_cwd (r >>? g)
under (ok a) f g h = h a
under (err e) f g h = refl

module _ (models : Models) (cwd model : Text) (turns : ℤ) (timeout : Option ℕ)
    (temperature : Real) where
  chat_with-written :
      (m : Text × Text)
      → chat_with models (written cwd model turns timeout temperature) m
        ≡ ok (chat_of models m (trim cwd) turns temperature timeout)
  unfolding chat_with string_input int_input float_input
  chat_with-written m =
      rw
        (
          field_cwd cwd model turns timeout temperature,
          string_filled (trim cwd) (codes "cwd"),
          field_turns cwd model turns timeout temperature,
          field_temperature cwd model turns timeout temperature,
          field_timeout cwd model turns timeout temperature,
          timeout_seconds timeout,
        )
        (read_turns m ∙ read_temperature m)
    where
      chat : Text × Text → ℕ → Real → Chat
      chat m n t = record {
        model = m.0;
        api_key = m.1;
        cwd = directory (trim cwd);
        max_turns = n;
        temperature = t;
        timeout_sec = timeout_or 3600 timeout;
      }

      read_turns :
          (m : Text × Text)
          → (int_field (above_zero turns) (codes "max_turns") false >>? λ n.
              (real_field (not_zero temperature) (codes "temperature") false >>? λ t.
              ok (chat_of models m (trim cwd) n t timeout)))
            ≡ (real_field (not_zero temperature) (codes "temperature") false >>? λ t.
                ok (chat_of models m (trim cwd) turns t timeout))
      read_turns m = turns_above_zero turns (codes "max_turns") models.default_turns (λ n.
          real_field (not_zero temperature) (codes "temperature") false >>? λ t.
          ok (chat m n (temperature_or models.default_temperature t)))

      read_temperature :
          (m : Text × Text)
          → (real_field (not_zero temperature) (codes "temperature") false >>? λ t.
              ok (chat_of models m (trim cwd) turns t timeout))
            ≡ ok (chat_of models m (trim cwd) turns temperature timeout)
      read_temperature m =
          temperature_not_zero temperature (codes "temperature") models.default_temperature
            (λ t. ok (chat m (turns_or models.default_turns turns) t))

  chat_with_read :
      (fields : Fields) (m : Text × Text)
      → string_input fields (codes "cwd") false ≡ ok cwd
      → int_input fields (codes "max_turns") false ≡ ok turns
      → timeout_field (field fields (codes "timeout_sec")) ≡ ok timeout
      → float_input fields (codes "temperature") false ≡ ok temperature
      → chat_with models fields m ≡ ok (chat_of models m cwd turns temperature timeout)
  unfolding chat_with
  chat_with_read fields m e1 e2 e3 e4 = rw (e1, e2, e4, e3) refl

  chat_settings-written :
      (fields : Fields)
      → string_input fields (codes "cwd") false ≡ ok cwd
      → string_input fields (codes "model") false ≡ ok model
      → int_input fields (codes "max_turns") false ≡ ok turns
      → timeout_field (field fields (codes "timeout_sec")) ≡ ok timeout
      → float_input fields (codes "temperature") false ≡ ok temperature
      → chat_settings models (written cwd model turns timeout temperature)
        ≡ map_ok trimmed_cwd (chat_settings models fields)
  unfolding chat_settings
  chat_settings-written fields e1 e2 e3 e4 e5 =
      let named : string_input (written cwd model turns timeout temperature) (codes "model") false
          ≡ ok (trim model) =
        unfold string_input in
        (ap (λ o. string_field o (codes "model") false)
            (field_model cwd model turns timeout temperature)
          ∙ string_filled (trim model) (codes "model")) in
      rw (named, trim-trim model, e2)
        (under (with_model models (model_or_default models model))
          (chat_with models (written cwd model turns timeout temperature)) (chat_with models fields)
          (λ m.
            chat_with-written m
            ∙ ap (λ d. ok (record (chat_of models m cwd turns temperature timeout) { cwd = d }))
                (directory-trim cwd)
            ∙ ap (map_ok trimmed_cwd) (sym (chat_with_read fields m e1 e3 e4 e5))))

-- Where recv accepts an input, the chat runs with the settings that the input has itself, or refuses it
-- with the same error, but for the spaces around the directory.
pub chat_settings-pump_input :
    (models : Models) (fields out : Fields)
    → pump_input fields ≡ ok out
    → chat_settings models out ≡ map_ok trimmed_cwd (chat_settings models fields)
unfolding pump_input
chat_settings-pump_input models fields out h =
    let (cwd, e1, h1) = bind_inv (string_input fields (codes "cwd") false) _ h in
    let (model, e2, h2) = bind_inv (string_input fields (codes "model") false) _ h1 in
    let (turns, e3, h3) = bind_inv (int_input fields (codes "max_turns") false) _ h2 in
    let (timeout, e4, h4) = bind_inv (timeout_field (field fields (codes "timeout_sec"))) _ h3 in
    let (temperature, e5, h5) = bind_inv (float_input fields (codes "temperature") false) _ h4 in
    subst (λ w. chat_settings models w ≡ map_ok trimmed_cwd (chat_settings models fields))
      (ok_inj h5)
      (chat_settings-written models cwd model turns timeout temperature fields e1 e2 e3 e4 e5)
  where
    ok_inj : {A : Type 0} {a b : A} → ◌≡◌ {A = Checked A} (ok a) (ok b) → a ≡ b
    ok_inj e = ground arith
