-- ===== src/Runtime/Registry/Listing.antt =====
-- What List of runtime/registry.go returns.
use zoa.Base.{
  ◌≡◌, refl, ap, subst, ◌⊎◌, inl, inr, true, false, Option, none, some, List, [], ◌∷◌, arith, All,
  All-map, Bool-cases,
}
use zoa.Base.Text.{Text, text_eq, text_eq_refl, text_eq_sound}
use zoa.Runtime.Registry.Lookup.{function_error_free, mixin_error_free}
use zoa.Runtime.Registry.Entries.{
  Function, Mixin, Entry, function_entry, mixin_entry, Registry, find_entry, function_of,
  function_error, mixin_error, unless, register, register_mixin, get, text_lt, insert_sorted, list,
}

abbrev pub id_of : Entry → Text
id_of (function_entry fn) = fn.id
id_of (mixin_entry m) = m.id

-- Every entry is under its own id, and no id is there twice.
abbrev pub Keyed : Registry → Type 0
Keyed [] = Unit
Keyed ((k, e) ∷ r) = (find_entry k r ≡ none) × (id_of e ≡ k) × Keyed r

abbrev pub Below : Function → List Function → Type 0
Below fn = All λ g. text_lt fn.id g.id ≡ true

abbrev pub Sorted : List Function → Type 0
Sorted [] = Unit
Sorted (fn ∷ fns) = Below fn fns × Sorted fns

abbrev pub Listed : Function → List Function → Type 0
Listed fn [] = true ≡ false
Listed fn (g ∷ gs) = (fn ≡ g) ⊎ Listed fn gs

text_lt_trans : (s t u : Text) → text_lt s t ≡ true → text_lt t u ≡ true → text_lt s u ≡ true
text_lt_trans s [] u h k = absurd (cc)
text_lt_trans s (b ∷ t) [] h k = absurd (cc)
text_lt_trans [] (b ∷ t) (c ∷ u) h k = refl
text_lt_trans (a ∷ s) (b ∷ t) (c ∷ u) h k = ground (arith, text_lt_trans s t u)

text_lt_total : (s t : Text) → text_lt s t ≡ false → text_eq s t ≡ false → text_lt t s ≡ true
text_lt_total [] [] h n = absurd (cc)
text_lt_total [] (b ∷ t) h n = absurd (cc)
text_lt_total (a ∷ s) [] h n = refl
text_lt_total (a ∷ s) (b ∷ t) h n = ground (arith, text_lt_total s t)

All-insert_sorted :
    (P : Function → Type 0) (fn : Function) (gs : List Function)
    → P fn
    → All P gs
    → All P (insert_sorted fn gs)
All-insert_sorted P fn [] p h = (p, tt)
All-insert_sorted P fn (g ∷ gs) p h = elim (Bool-cases (text_lt fn.id g.id)) [
  | inl y ↦ rw y (p, h)
  | inr n ↦ rw n (h.0, All-insert_sorted P fn gs p h.1)
]

insert_sorted-Sorted :
    (fn : Function) (gs : List Function)
    → All (λ g. text_eq fn.id g.id ≡ false) gs
    → Sorted gs
    → Sorted (insert_sorted fn gs)
insert_sorted-Sorted fn [] apart h = (tt, tt)
insert_sorted-Sorted fn (g ∷ gs) apart h = elim (Bool-cases (text_lt fn.id g.id)) [
  | inl y ↦ rw y (
    (
      y,
      All-map (λ x. text_lt g.id x.id ≡ true) (λ x. text_lt fn.id x.id ≡ true) gs
          (λ x k. text_lt_trans fn.id g.id x.id y k) h.0,
    ),
    h,
  )
  | inr n ↦ rw n (
    All-insert_sorted (λ x. text_lt g.id x.id ≡ true) fn gs (text_lt_total fn.id g.id n apart.0)
        h.0,
    insert_sorted-Sorted fn gs apart.1 h.1,
  )
]

Listed-insert_sorted : (fn : Function) (gs : List Function) → Listed fn (insert_sorted fn gs)
Listed-insert_sorted fn [] = inl refl
Listed-insert_sorted fn (g ∷ gs) = elim (Bool-cases (text_lt fn.id g.id)) [
  | inl y ↦ rw y (inl refl)
  | inr n ↦ rw n (inr (Listed-insert_sorted fn gs))
]

Listed-kept : (x fn : Function) (gs : List Function) → Listed x gs → Listed x (insert_sorted fn gs)
Listed-kept x fn [] h = absurd (cc)
Listed-kept x fn (g ∷ gs) h = elim (Bool-cases (text_lt fn.id g.id)) [
  | inl y ↦ rw y (inr h)
  | inr n ↦ rw n (elim h [ inl e ↦ inl e | inr k ↦ inr (Listed-kept x fn gs k) ])
]

-- What Get returns, below a new entry with another id.
get-older :
    (id k : Text) (e : Entry) (r : Registry) {fn : Function}
    → find_entry k r ≡ none
    → get id r ≡ some fn
    → (text_eq k id ≡ false) × (get id ((k, e) ∷ r) ≡ some fn)
unfolding get
get-older id k e r {fn} new h = elim (Bool-cases (text_eq k id)) [
  | inl y ↦ absurd (
      let same = text_eq_sound k id y in
      let gone = ap function_of (subst (λ z. find_entry z r ≡ none) same new) in cc)
  | inr n ↦ (n, rw n h)
]

list-get-All : (r : Registry) → Keyed r → All (λ fn. get fn.id r ≡ some fn) (list r)
unfolding list get
list-get-All [] v = tt
list-get-All ((k, mixin_entry m) ∷ r) (new, at, v) =
    All-map (λ fn. get fn.id r ≡ some fn) (λ fn. get fn.id ((k, mixin_entry m) ∷ r) ≡ some fn)
      (list r) (λ fn h. (get-older fn.id k (mixin_entry m) r {fn = fn} new h).1) (list-get-All r v)
list-get-All ((k, function_entry f) ∷ r) (new, at, v) =
    let older =
      All-map (λ fn. get fn.id r ≡ some fn) (λ fn. get fn.id ((k, function_entry f) ∷ r) ≡ some fn)
        (list r) (λ fn h. (get-older fn.id k (function_entry f) r {fn = fn} new h).1)
        (list-get-All r v) in
    All-insert_sorted (λ fn. get fn.id ((k, function_entry f) ∷ r) ≡ some fn) f (list r)
      (rw (at, text_eq_refl k) refl) older

list-Sorted : (r : Registry) → Keyed r → Sorted (list r)
unfolding list
list-Sorted [] v = tt
list-Sorted ((k, mixin_entry m) ∷ r) (new, at, v) = list-Sorted r v
list-Sorted ((k, function_entry f) ∷ r) (new, at, v) =
    insert_sorted-Sorted f (list r)
      (All-map (λ fn. get fn.id r ≡ some fn) (λ fn. text_eq f.id fn.id ≡ false) (list r)
        (λ fn h. rw at ((get-older fn.id k (function_entry f) r {fn = fn} new h).0))
        (list-get-All r v))
      (list-Sorted r v)

list-Listed : (id : Text) (fn : Function) (r : Registry) → get id r ≡ some fn → Listed fn (list r)
unfolding list get
list-Listed id fn [] h = absurd (cc)
list-Listed id fn ((k, mixin_entry m) ∷ r) h = elim (Bool-cases (text_eq k id)) [
  | inl y ↦ absurd (let gone = rw y at h in cc)
  | inr n ↦ list-Listed id fn r (rw n at h)
]
list-Listed id fn ((k, function_entry f) ∷ r) h = elim (Bool-cases (text_eq k id)) [
  | inl y ↦
      let found = rw y at h in
      let same : f ≡ fn = ground arith in
      subst (λ g. Listed g (insert_sorted f (list r))) same (Listed-insert_sorted f (list r))
  | inr n ↦ Listed-kept fn f (list r) (list-Listed id fn r (rw n at h))
]

-- List returns the functions, sorted strictly by their ids: each listed function is the one that Get
-- returns for its id, and each function that Get returns is listed. In the registry every entry
-- stands under its own id, and no id twice.
pub list-get :
    (r : Registry)
    → Keyed r
    → Sorted (list r)
      × All (λ fn. get fn.id r ≡ some fn) (list r)
      × ((id : Text) (fn : Function) → get id r ≡ some fn → Listed fn (list r))
list-get r v = (list-Sorted r v, list-get-All r v, λ id fn h. list-Listed id fn r h)

unless-Keyed :
    (o : Option Text) (added r : Registry)
    → (o ≡ none → Keyed added)
    → Keyed r
    → Keyed (unless o added r).1
unless-Keyed none added r keep v = keep refl
unless-Keyed (some text) added r keep v = v

register_function-Keyed : (fn : Option Function) (r : Registry) → Keyed r → Keyed (register fn r).1
unfolding register function_error
register_function-Keyed none r v = v
register_function-Keyed (some fn) r v =
    unless-Keyed (function_error (some fn) r) ((fn.id, function_entry fn) ∷ r) r
      (λ e. (function_error_free fn r e, refl, v)) v

register_mixin-Keyed : (m : Option Mixin) (r : Registry) → Keyed r → Keyed (register_mixin m r).1
unfolding register_mixin mixin_error
register_mixin-Keyed none r v = v
register_mixin-Keyed (some m) r v =
    unless-Keyed (mixin_error (some m) r) ((m.id, mixin_entry m) ∷ r) r
      (λ e. (mixin_error_free m r e, refl, v)) v

-- Whatever is registered, function or mixin, accepted or refused, every entry stays under its own id
-- and no id is there twice.
pub register-Keyed :
    (fn : Option Function) (m : Option Mixin) (r : Registry)
    → Keyed r
    → Keyed (register fn r).1 × Keyed (register_mixin m r).1
register-Keyed fn m r v = (register_function-Keyed fn r v, register_mixin-Keyed m r v)
