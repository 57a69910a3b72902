-- ===== src/Tools/Read/Kept.antt =====
-- One line more for the loop of TruncateHead, in internal/agentloop/tools/truncate.go.
use zoa.Base.{
  ℕ, zero, suc, ◌+◌, ◌-◌, ◌<◌, ◌≡◌, refl, sym, ap, ◌∙◌, inl, inr, ◌&&◌, List, [], ◌∷◌, ◌++◌, arith,
  leb, length, length-append, Bool-cases, if◌then◌else◌,
}
use mathlib.Core.List.{append_assoc}
use zoa.Base.Text.{Text}
use zoa.Tools.Truncate.{join_lines, head_lines}

-- The bytes of lines; `separator` is 1 where a line stands before them.
abbrev pub used : ℕ → List Text → ℕ
used separator [] = 0
used separator (l ∷ ls) = length l + separator + used 1 ls

abbrev pub separator_after : ℕ → List Text → ℕ
separator_after separator [] = separator
separator_after separator (l ∷ ls) = 1

pub separator_after_one : (ls : List Text) → separator_after 1 ls ≡ 1
separator_after_one [] = refl
separator_after_one (l ∷ ls) = refl

pub length-join_lines : (ls : List Text) → length (join_lines ls) ≡ used 0 ls
length-join_lines [] = refl
length-join_lines (l ∷ []) = omega arith
length-join_lines (l ∷ m ∷ ls) =
    omega (arith, length-append l (b'\n' ∷ join_lines (m ∷ ls)), length-join_lines (m ∷ ls))

pub join_lines-append :
    (k : Text) (ks : List Text) (l : Text)
    → join_lines ((k ∷ ks) ++ (l ∷ [])) ≡ join_lines (k ∷ ks) ++ (b'\n' ∷ l)
join_lines-append k [] l = refl
join_lines-append k (m ∷ ks) l =
    ap (λ t. k ++ (b'\n' ∷ t)) (join_lines-append m ks l)
    ∙ sym (append_assoc k (b'\n' ∷ join_lines (m ∷ ks)) (b'\n' ∷ l))

-- Once the loop has ended, a further line changes nothing.
pub head_lines-ended :
    (left room separator : ℕ) (ls : List Text) (l : Text)
    → length (head_lines left room separator ls).0 < length ls
    → (head_lines left room separator (ls ++ (l ∷ []))).0 ≡ (head_lines left room separator ls).0
unfolding head_lines
head_lines-ended left room separator [] l h = absurd (omega arith)
head_lines-ended zero room separator (m ∷ ls) l h = refl
head_lines-ended (suc left) room separator (m ∷ ls) l h =
    elim (Bool-cases (leb (length m + separator) room)) [
      | inl y ↦ rw y (
          ap (λ t. m ∷ t)
            (head_lines-ended left (room - (length m + separator)) 1 ls l
              (let shorter = rw y at h in omega (arith, shorter))))
      | inr n ↦ rw n refl
    ]

-- Until then it takes a line that fits.
pub head_lines-next :
    (left room separator : ℕ) (ls : List Text) (l : Text)
    → (head_lines left room separator ls).0 ≡ ls
    → (head_lines left room separator (ls ++ (l ∷ []))).0 ≡ (
        if leb (suc (length ls)) left
          && leb (used separator ls + (length l + separator_after separator ls)) room
        then ls ++ (l ∷ [])
        else ls)
unfolding head_lines
head_lines-next zero room separator [] l h = refl
head_lines-next (suc left) room separator [] l h = ground arith
head_lines-next zero room separator (m ∷ ls) l h = absurd (cc)
head_lines-next (suc left) room separator (m ∷ ls) l h =
    elim (Bool-cases (leb (length m + separator) room)) [
      | inl y ↦
          let kept = rw y at h in
          rw y (
            ap (λ t. m ∷ t)
              (head_lines-next left (room - (length m + separator)) 1 ls l (ground arith))
            ∙ (ground (arith, separator_after_one ls)))
      | inr n ↦ absurd (let none = rw n at h in cc)
    ]
