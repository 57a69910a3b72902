-- ===== src/Base/Cuts.antt =====
-- The laws of a list's beginning and end, which Go writes as slices.
use Prim.Native.Nat.{ℕ, zero, suc, ◌+◌, ◌-◌, ◌≤◌}
use mathlib.Core.Path.{◌≡◌, refl, ap}
use mathlib.Core.List.{List, [], ◌∷◌, ◌++◌}
use native.Mathlib.Omega.{arith}
use zoa.Base.Lists.{length, take, drop}

module _ {ℓ} {A : Type ℓ} where
  -- s[len(s)-n:], and all of s where n is larger
  abbrev pub take_last : ℕ → List A → List A
  take_last n s = drop (length s - n) s

  pub drop-nil : (n : ℕ) → drop {A = A} n [] ≡ []
  drop-nil zero = refl
  drop-nil (suc n) = refl

  pub drop_all : (n : ℕ) (s : List A) → length s ≤ n → drop n s ≡ []
  drop_all zero [] h = refl
  drop_all (suc n) [] h = refl
  drop_all zero (c ∷ s) h = absurd (omega arith)
  drop_all (suc n) (c ∷ s) h = drop_all n s (omega arith)

  pub drop-append_before : (n : ℕ) (s t : List A) → n ≤ length s → drop n (s ++ t) ≡ drop n s ++ t
  drop-append_before zero s t h = refl
  drop-append_before (suc n) [] t h = absurd (omega arith)
  drop-append_before (suc n) (c ∷ s) t h = drop-append_before n s t (omega arith)

  pub drop-append_after :
      (n : ℕ) (s t : List A) → length s ≤ n → drop n (s ++ t) ≡ drop (n - length s) t
  drop-append_after n [] t h = ap (λ k. drop k t) (omega arith)
  drop-append_after zero (c ∷ s) t h = absurd (omega arith)
  drop-append_after (suc n) (c ∷ s) t h =
      let e : suc n - suc (length s) ≡ n - length s = omega arith in
      rw e (drop-append_after n s t (omega arith))

  pub drop-drop : (m n : ℕ) (s : List A) → drop m (drop n s) ≡ drop (n + m) s
  drop-drop m zero s = ap (λ k. drop k s) (omega arith)
  drop-drop m (suc n) [] = rw (drop-nil m, drop-nil (suc n + m))
  drop-drop m (suc n) (c ∷ s) =
      let e : suc n + m ≡ suc (n + m) = omega arith in rw e (drop-drop m n s)

  pub length-drop : (n : ℕ) (s : List A) → length (drop n s) ≡ length s - n
  length-drop zero s = omega arith
  length-drop (suc n) [] = omega arith
  length-drop (suc n) (c ∷ s) = omega (arith, length-drop n s)

  pub take-append_before : (n : ℕ) (s t : List A) → n ≤ length s → take n (s ++ t) ≡ take n s
  take-append_before zero s t h = refl
  take-append_before (suc n) [] t h = absurd (omega arith)
  take-append_before (suc n) (c ∷ s) t h = ap (λ u. c ∷ u) (take-append_before n s t (omega arith))

  pub take-append_after :
      (n : ℕ) (s t : List A) → length s ≤ n → take n (s ++ t) ≡ s ++ take (n - length s) t
  take-append_after n [] t h = ap (λ k. take k t) (omega arith)
  take-append_after zero (c ∷ s) t h = absurd (omega arith)
  take-append_after (suc n) (c ∷ s) t h =
      let e : suc n - suc (length s) ≡ n - length s = omega arith in
      rw e (ap (λ u. c ∷ u) (take-append_after n s t (omega arith)))

  pub take_all : (n : ℕ) (s : List A) → length s ≤ n → take n s ≡ s
  take_all zero [] h = refl
  take_all (suc n) [] h = refl
  take_all zero (c ∷ s) h = absurd (omega arith)
  take_all (suc n) (c ∷ s) h = ap (λ u. c ∷ u) (take_all n s (omega arith))

  pub length-take : (n : ℕ) (s : List A) → n ≤ length s → length (take n s) ≡ n
  length-take zero s h = refl
  length-take (suc n) [] h = absurd (omega arith)
  length-take (suc n) (c ∷ s) h = omega (arith, length-take n s)

  pub take-drop : (n : ℕ) (s : List A) → take n s ++ drop n s ≡ s
  take-drop zero s = refl
  take-drop (suc n) [] = refl
  take-drop (suc n) (c ∷ s) = ap (λ u. c ∷ u) (take-drop n s)
