-- ===== src/Base/Text/Trimmed.antt =====
-- strings.TrimSpace, applied twice.
use Prim.Native.Nat.{ℕ}
use mathlib.Core.Path.{◌≡◌, refl, ap, ◌∙◌}
use mathlib.Core.Logic.{◌⊎◌, inl, inr}
use mathlib.Core.Bool.{false}
use mathlib.Core.List.{[], ◌∷◌, ◌++◌, reverse, reverse-append, reverse-reverse}
use zoa.Base.Tests.{Bool-cases}
use zoa.Base.Text.{Text, is_space, trim_left, trim}

-- A character that is no space keeps the trimming of what stands before it from going on.
trim_left-append :
    (s : Text) (c : ℕ) → is_space c ≡ false → trim_left (s ++ (c ∷ [])) ≡ trim_left s ++ (c ∷ [])
unfolding trim_left
trim_left-append [] c h = rw h refl
trim_left-append (x ∷ s) c h = elim (Bool-cases (is_space x)) [
  | inl y ↦ rw y (trim_left-append s c h)
  | inr n ↦ rw n refl
]

-- A text that is left trimmed is empty, or begins with a character that is no space.
trim_left_cases :
    (s : Text)
    → (trim_left s ≡ []) ⊎ ((c : ℕ) × (t : Text) × (trim_left s ≡ c ∷ t) × (is_space c ≡ false))
unfolding trim_left
trim_left_cases [] = inl refl
trim_left_cases (x ∷ s) = elim (Bool-cases (is_space x)) [
  | inl y ↦ rw y (trim_left_cases s)
  | inr n ↦ rw n (inr (x, s, refl, n))
]

trim_right-cons :
    (c : ℕ) (t : Text)
    → is_space c ≡ false
    → reverse (trim_left (reverse (c ∷ t))) ≡ c ∷ reverse (trim_left (reverse t))
trim_right-cons c t h =
    ap (λ l. reverse (trim_left l)) (reverse-append (c ∷ []) t)
    ∙ ap reverse (trim_left-append (reverse t) c h)
    ∙ reverse-append (trim_left (reverse t)) (c ∷ [])

trim_left_twice : (s : Text) → trim_left (trim_left s) ≡ trim_left s
unfolding trim_left
trim_left_twice [] = refl
trim_left_twice (x ∷ s) = elim (Bool-cases (is_space x)) [
  | inl y ↦ rw y (trim_left_twice s)
  | inr n ↦ rw n (rw n refl)
]

pub trim-trim : (s : Text) → trim (trim s) ≡ trim s
unfolding trim
trim-trim s = elim (trim_left_cases s) [
  | inl e ↦ rw e (unfold trim_left in refl)
  | inr (c, t, e, n) ↦
      let whole : trim_left (reverse (trim_left (reverse (c ∷ t))))
          ≡ reverse (trim_left (reverse (c ∷ t))) =
        rw (trim_right-cons c t n) (unfold trim_left in rw n refl) in
      rw
        (e, whole, reverse-reverse (trim_left (reverse (c ∷ t))), trim_left_twice (reverse (c ∷ t)))
        refl
]
