-- ===== src/Runtime/Registry/Lookup.antt =====
-- Registration and lookup of runtime/registry.go.
use zoa.Base.{◌≡◌, refl, sym, ◌≢◌, false, Option, none, some, ◌∷◌, arith}
use zoa.Base.Text.{Text, text_eq_refl, text_neq}
use zoa.Base.Sql.{ok}
use zoa.Runtime.Registry.Entries.{
  Function, Mixin, Entry, function_entry, Registry, find_entry, function_error, mixin_error,
  is_taken, unless, register, get, get_mixin,
}

unless_ok :
    (o : Option Text) (added r : Registry)
    → (unless o added r).0 ≡ ok tt
    → (o ≡ none) × ((unless o added r).1 ≡ added)
unless_ok none added r won = (refl, refl)
unless_ok (some text) added r won = absurd (cc)

is_taken-none : (o : Option Entry) → is_taken o ≡ false → o ≡ none
is_taken-none none e = refl
is_taken-none (some x) e = absurd (cc)

pub function_error_free :
    (fn : Function) (r : Registry) → function_error (some fn) r ≡ none → find_entry fn.id r ≡ none
unfolding function_error
function_error_free fn r e = is_taken-none (find_entry fn.id r) (ground arith)

pub mixin_error_free :
    (m : Mixin) (r : Registry) → mixin_error (some m) r ≡ none → find_entry m.id r ≡ none
unfolding mixin_error
mixin_error_free m r e = is_taken-none (find_entry m.id r) (ground arith)

-- Registering succeeds only under a free id. Then the function is what Get returns for its id, no
-- mixin has the id, and every other id has what it had.
pub register-get :
    (fn : Function) (r : Registry)
    → (register (some fn) r).0 ≡ ok tt
    → let r' = (register (some fn) r).1 in
      (find_entry fn.id r ≡ none)
      × (get fn.id r' ≡ some fn)
      × (get_mixin fn.id r' ≡ none)
      × ((id : Text) → id ≢ fn.id → (get id r' ≡ get id r) × (get_mixin id r' ≡ get_mixin id r))
unfolding register get get_mixin
register-get fn r won =
    let o = function_error (some fn) r in
    let added = (fn.id, function_entry fn) ∷ r in
    let done = unless_ok o added r won in
    rw (done.1) (
      function_error_free fn r done.0,
      rw (text_eq_refl fn.id) refl,
      rw (text_eq_refl fn.id) refl,
      λ id other.
          let apart = text_neq fn.id id (λ e. other (sym e)) in (rw apart refl, rw apart refl),
    )
