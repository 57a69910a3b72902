-- ===== src/Base/Lists.antt =====
-- Lists measured by native numbers, and a table as the list of its rows: the SELECT, UPDATE and
-- COUNT of the program's SQL statements.
use Prim.Native.Nat.{ℕ, zero, suc, ◌+◌}
use mathlib.Core.Path.{◌≡◌, refl, ap, subst}
use mathlib.Core.Logic.{inl, inr}
use mathlib.Core.Bool.{Bool, true, false, ◌||◌}
use mathlib.Core.List.{List, [], ◌∷◌, ◌++◌}
use mathlib.Core.Option.{Option, none, some}
use native.Mathlib.Omega.{arith}
use zoa.Base.Tests.{if◌then◌else◌, Bool-cases}

module _ {ℓ} {A : Type ℓ} where
  abbrev pub length : List A → ℕ
  length [] = 0
  length (x ∷ xs) = suc (length xs)

  abbrev pub take : ℕ → List A → List A
  take zero xs = []
  take (suc n) [] = []
  take (suc n) (x ∷ xs) = x ∷ take n xs

  abbrev pub drop : ℕ → List A → List A
  drop zero xs = xs
  drop (suc n) [] = []
  drop (suc n) (x ∷ xs) = drop n xs

  abbrev pub All {κ} : (A → Type κ) → List A → Type κ
  All P [] = Unit
  All P (x ∷ xs) = P x × All P xs

  abbrev pub any_of : (A → Bool) → List A → Bool
  any_of p [] = false
  any_of p (x ∷ xs) = p x || any_of p xs

  -- SELECT * WHERE p
  abbrev pub select : (A → Bool) → List A → List A
  select p [] = []
  select p (x ∷ xs) = let rest = select p xs in if p x then x ∷ rest else rest

  -- SELECT * WHERE p LIMIT 1
  abbrev pub select_first : (A → Bool) → List A → Option A
  select_first p [] = none
  select_first p (x ∷ xs) = if p x then some x else select_first p xs

  -- SELECT COUNT(*) WHERE p, and the number of rows that UPDATE WHERE p affects
  abbrev pub count_where : (A → Bool) → List A → ℕ
  count_where p [] = 0
  count_where p (x ∷ xs) = let rest = count_where p xs in if p x then suc rest else rest

  -- UPDATE SET f WHERE p
  abbrev pub update_where : (A → Bool) → (A → A) → List A → List A
  update_where p f [] = []
  update_where p f (x ∷ xs) = (if p x then f x else x) ∷ update_where p f xs

  pub length-append : (xs ys : List A) → length (xs ++ ys) ≡ length xs + length ys
  length-append [] ys = omega arith
  length-append (x ∷ xs) ys = omega (arith, length-append xs ys)

  pub All-append {κ} : (P : A → Type κ) (xs ys : List A) → All P xs → All P ys → All P (xs ++ ys)
  All-append P [] ys hx hy = hy
  All-append P (x ∷ xs) ys hx hy = (hx.0, All-append P xs ys hx.1 hy)

  pub All-map {κ μ} :
      (P : A → Type κ) (Q : A → Type μ) (xs : List A) → ((x : A) → P x → Q x) → All P xs → All Q xs
  All-map P Q [] f h = tt
  All-map P Q (x ∷ xs) f h = (f x h.0, All-map P Q xs f h.1)

  pub All-update_where {κ} :
      (P : A → Type κ) (p : A → Bool) (f : A → A) (xs : List A)
      → ((x : A) → p x ≡ true → P x → P (f x))
      → All P xs
      → All P (update_where p f xs)
  All-update_where P p f [] keep h = tt
  All-update_where P p f (x ∷ xs) keep h = elim (Bool-cases (p x)) [
    | inl e ↦ rw e (keep x e h.0, All-update_where P p f xs keep h.1)
    | inr e ↦ rw e (h.0, All-update_where P p f xs keep h.1)
  ]

  pub count_where-append :
      (p : A → Bool) (xs ys : List A)
      → count_where p (xs ++ ys) ≡ count_where p xs + count_where p ys
  count_where-append p [] ys = omega arith
  count_where-append p (x ∷ xs) ys = ground (arith, count_where-append p xs ys)

  pub select_first-append :
      (p : A → Bool) (xs ys : List A) {a : A}
      → select_first p xs ≡ some a
      → select_first p (xs ++ ys) ≡ some a
  select_first-append p [] ys h = ground arith
  select_first-append p (x ∷ xs) ys {a} h = ground (arith, select_first-append p xs ys {a = a})

  -- The row that LIMIT 1 returns meets the condition.
  pub select_first_holds :
      (p : A → Bool) (xs : List A) {a : A} → select_first p xs ≡ some a → p a ≡ true
  select_first_holds p [] h = ground arith
  select_first_holds p (x ∷ xs) {a} h = ground (arith, select_first_holds p xs {a = a})

  -- An UPDATE that affects no row changes nothing.
  pub update_where_unchanged :
      (p : A → Bool) (f : A → A) (xs : List A) → count_where p xs ≡ 0 → update_where p f xs ≡ xs
  update_where_unchanged p f [] h = refl
  update_where_unchanged p f (x ∷ xs) h = ground (arith, update_where_unchanged p f xs)

  pub length-update_where :
      (p : A → Bool) (f : A → A) (xs : List A) → length (update_where p f xs) ≡ length xs
  length-update_where p f [] = refl
  length-update_where p f (x ∷ xs) = ap suc (length-update_where p f xs)

-- What holds of all rows holds of the one that is found.
pub All-select_first {ℓ κ} :
    {A : Type ℓ} (P : A → Type κ) (p : A → Bool) (xs : List A) {a : A}
    → All P xs
    → select_first p xs ≡ some a
    → P a
All-select_first P p [] h e = absurd (cc)
All-select_first P p (x ∷ xs) {a} h e = elim (Bool-cases (p x)) [
  | inl y ↦ let same : x ≡ a = ground arith in subst P same h.0
  | inr n ↦ All-select_first P p xs {a = a} h.1 (ground arith)
]

updated_same {ℓ} :
    {A : Type ℓ} (p q : A → Bool) (f : A → A) (x : A)
    → p (f x) ≡ p x
    → p (if q x then f x else x) ≡ p x
updated_same p q f x keep = elim (Bool-cases (q x)) [ inl y ↦ rw y keep | inr n ↦ rw n refl ]

-- An UPDATE that keeps what a query looks for changes the row that it finds, or not.
pub select_first-update_where {ℓ} :
    {A : Type ℓ} (p q : A → Bool) (f : A → A) (xs : List A) {a : A}
    → ((x : A) → p (f x) ≡ p x)
    → select_first p xs ≡ some a
    → select_first p (update_where q f xs) ≡ some (if q a then f a else a)
select_first-update_where p q f [] keep e = absurd (cc)
select_first-update_where p q f (x ∷ xs) {a} keep e = elim (Bool-cases (p x)) [
  | inl y ↦
      let same : x ≡ a = ground arith in
      rw (updated_same p q f x (keep x), y) (ap (λ z. some (if q z then f z else z)) same)
  | inr n ↦
      rw (updated_same p q f x (keep x), n)
        (select_first-update_where p q f xs {a = a} keep (ground arith))
]
