-- ===== src/Runtime/Registry/Entries.antt =====
-- The map is the list of its entries, the newest first; the order in which Go ranges over it is
-- irrelevant after the sorting. An Exec is only looked at for nil.
use zoa.Base.{
  Bool, true, false, ◌&&◌, ◌||◌, not, Option, none, some, List, [], ◌∷◌, ltb, ◌==◌, if◌then◌else◌,
}
use zoa.Base.Text.{Text, codes, text_eq, is_empty, trim}
use zoa.Base.Sql.{Result, ok, err}

pub record Function : Type 0 where
  pub id : Text
  pub when_to_use : Text
  pub has_exec : Bool

pub record Mixin : Type 0 where
  pub id : Text
  pub when_to_use : Text
  pub content : Text

-- registryEntry, with the kind as the constructor
pub data Entry : Type 0 where
  function_entry : Function → Entry
  mixin_entry : Mixin → Entry

abbrev pub Registry : Type 0
Registry = List (Text × Entry)

abbrev pub find_entry : Text → Registry → Option Entry
find_entry id [] = none
find_entry id ((k, e) ∷ r) = let older = find_entry id r in if text_eq k id then some e else older

abbrev pub is_taken : Option Entry → Bool
is_taken none = false
is_taken (some _) = true

-- The checks of Register; the map is touched only after them.
unfoldable pub function_error : Option Function → Registry → Option Text
function_error none r = some (codes "function cannot be nil")
function_error (some fn) r =
    if is_empty (trim fn.id)
    then some (codes "function ID cannot be empty")
    else if is_empty (trim fn.when_to_use)
    then some (codes "function must provide non-empty WhenToUse")
    else if not fn.has_exec
    then some (codes "function has nil Exec")
    else if is_taken (find_entry fn.id r)
    then some (codes "id is already registered")
    else none

unfoldable pub mixin_error : Option Mixin → Registry → Option Text
mixin_error none r = some (codes "mixin cannot be nil")
mixin_error (some m) r =
    if is_empty (trim m.id)
    then some (codes "mixin ID cannot be empty")
    else if is_empty (trim m.when_to_use)
    then some (codes "mixin must provide non-empty WhenToUse")
    else if is_empty (trim m.content)
    then some (codes "mixin must provide non-empty Content")
    else if is_taken (find_entry m.id r)
    then some (codes "id is already registered")
    else none

abbrev pub added_function : Option Function → Registry → Registry
added_function none r = r
added_function (some fn) r = (fn.id, function_entry fn) ∷ r

abbrev pub added_mixin : Option Mixin → Registry → Registry
added_mixin none r = r
added_mixin (some m) r = (m.id, mixin_entry m) ∷ r

abbrev pub unless : Option Text → Registry → Registry → Result Text (Unit {0}) × Registry
unless none added r = (ok tt, added)
unless (some text) added r = (err text, r)

unfoldable pub register : Option Function → Registry → Result Text (Unit {0}) × Registry
unfolding function_error
register fn r = unless (function_error fn r) (added_function fn r) r

unfoldable pub register_mixin : Option Mixin → Registry → Result Text (Unit {0}) × Registry
unfolding mixin_error
register_mixin m r = unless (mixin_error m r) (added_mixin m r) r

abbrev pub function_of : Option Entry → Option Function
function_of none = none
function_of (some (function_entry fn)) = some fn
function_of (some (mixin_entry m)) = none

abbrev pub mixin_of : Option Entry → Option Mixin
mixin_of none = none
mixin_of (some (function_entry fn)) = none
mixin_of (some (mixin_entry m)) = some m

unfoldable pub get : Text → Registry → Option Function
get id r = function_of (find_entry id r)

unfoldable pub get_mixin : Text → Registry → Option Mixin
get_mixin id r = mixin_of (find_entry id r)

-- `<` on strings
abbrev pub text_lt : Text → Text → Bool
text_lt s [] = false
text_lt [] (b ∷ t) = true
text_lt (a ∷ s) (b ∷ t) = ltb a b || (a == b && text_lt s t)

abbrev pub insert_sorted : Function → List Function → List Function
insert_sorted fn [] = fn ∷ []
insert_sorted fn (g ∷ gs) =
    let rest = insert_sorted fn gs in if text_lt fn.id g.id then fn ∷ (g ∷ gs) else g ∷ rest

abbrev pub sorted_with : Entry → List Function → List Function
sorted_with (function_entry fn) fns = insert_sorted fn fns
sorted_with (mixin_entry m) fns = fns

-- List: the functions, sorted by their ids
unfoldable pub list : Registry → List Function
list [] = []
list ((k, e) ∷ r) = sorted_with e (list r)
