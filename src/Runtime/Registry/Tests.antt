-- ===== src/Runtime/Registry/Tests.antt =====
-- A registry with two functions and a mixin.
use zoa.Base.{◌≡◌, ◌≢◌, refl, true, none, some, [], All}
use zoa.Base.Text.{Text, codes, trim}
use zoa.Base.Sql.{ok}
use zoa.Runtime.Registry.Entries.{
  Function, Mixin, Registry, find_entry, register, register_mixin, get, get_mixin, list,
}
use zoa.Runtime.Registry.Lookup.{register-get}
use zoa.Runtime.Registry.Listing.{Keyed, Sorted, Listed, list-get, register-Keyed}

abbrev named : Text → Function
named id = record { id = id; when_to_use = codes "always"; has_exec = true }

abbrev notes : Mixin
notes = record { id = codes "notes"; when_to_use = codes "always"; content = codes "text" }

abbrev two : Registry
two = (register (some (named (codes "b"))) (register_mixin (some notes) []).1).1

two-Keyed : Keyed two
two-Keyed =
    (register-Keyed (some (named (codes "b"))) none (register_mixin (some notes) []).1
      (register-Keyed none (some notes) [] tt).1).0

won : (register (some (named (codes "a"))) two).0 ≡ ok tt
unfolding register register_mixin trim
won = refl

register-get_example :
    let r' = (register (some (named (codes "a"))) two).1 in
    (find_entry (codes "a") two ≡ none)
    × (get (codes "a") r' ≡ some (named (codes "a")))
    × (get_mixin (codes "a") r' ≡ none)
    × ((id : Text)
        → id ≢ codes "a"
        → (get id r' ≡ get id two) × (get_mixin id r' ≡ get_mixin id two))
register-get_example = register-get (named (codes "a")) two won

list-get_example :
    Sorted (list two)
    × All (λ fn. get fn.id two ≡ some fn) (list two)
    × ((id : Text) (fn : Function) → get id two ≡ some fn → Listed fn (list two))
list-get_example = list-get two two-Keyed
