-- ===== src/Tools/Binary.antt =====
-- isLikelyBinary of internal/agentloop/tools/read.go, for a text whose sample ends within a rune.
use zoa.Base.{
  ℕ, zero, suc, ◌-◌, ◌≤◌, ◌≡◌, ◌≢◌, refl, ap, ◌∙◌, true, false, [], ◌∷◌, ◌++◌, arith, length, take,
}
use mathlib.Core.List.{foldl}
use zoa.Base.Cuts.{take-append_after}
use zoa.Base.Int.{ℤ}
use zoa.Base.Text.{Text, codes}
use zoa.Base.Sql.{ok}
use zoa.Tools.Bytes.{
  Utf8, within, invalid, complete, utf8_start, utf8_step, utf8_valid, is_likely_binary, sample_size,
}
use zoa.Tools.Edit.{editable}
use zoa.Tools.Read.{read_content}

foldl-append :
    (s t : Text) (u : Utf8) → foldl utf8_step u (s ++ t) ≡ foldl utf8_step (foldl utf8_step u s) t
foldl-append [] t u = refl
foldl-append (c ∷ s) t u = foldl-append s t (utf8_step u c)

complete_within : (u : Utf8) → complete u ≡ true → (low : ℕ) × (high : ℕ) × (u ≡ within 0 low high)
complete_within (within zero low high) h = (low, high, refl)
complete_within (within (suc left) low high) h = absurd (ground arith)
complete_within invalid h = absurd (cc)

-- The first byte of a rune of two bytes.
abbrev pub Lead : ℕ → Type 0
Lead c = (0xc2 ≤ c) × (c ≤ 0xdf)

step-Lead : (c low high : ℕ) → Lead c → utf8_step (within 0 low high) c ≡ within 1 0x80 0xbf
unfolding utf8_step
step-Lead c low high h = ground arith

step_next : (d : ℕ) → 0x80 ≤ d → d ≤ 0xbf → utf8_step (within 1 0x80 0xbf) d ≡ within 0 0x80 0xbf
unfolding utf8_step
step_next d lo hi = ground arith

-- Between runes it does not matter what came before.
valid_after :
    (s : Text) (low high : ℕ) → complete (foldl utf8_step (within 0 low high) s) ≡ utf8_valid s
unfolding utf8_valid utf8_step
valid_after [] low high = refl
valid_after (c ∷ s) low high = refl

module _ (p rest : Text) (c d : ℕ) (first : Lead c) (lo : 0x80 ≤ d) (hi : d ≤ 0xbf)
    (valid : utf8_valid p ≡ true) where
  whole_valid : utf8_valid rest ≡ true → utf8_valid (p ++ (c ∷ d ∷ rest)) ≡ true
  unfolding utf8_valid
  whole_valid h =
      let (low, high, e) = complete_within (foldl utf8_step utf8_start p) valid in
      rw
        (foldl-append p (c ∷ d ∷ rest) utf8_start, e, step-Lead c low high first, step_next d lo hi)
        (valid_after rest 0x80 0xbf ∙ h)

  cut_invalid : utf8_valid (p ++ (c ∷ [])) ≡ false
  unfolding utf8_valid
  cut_invalid =
      let (low, high, e) = complete_within (foldl utf8_step utf8_start p) valid in
      rw (foldl-append p (c ∷ []) utf8_start, e, step-Lead c low high first) refl

  is_likely_binary-cut : length p ≡ sample_size - 1 → is_likely_binary (p ++ (c ∷ d ∷ rest)) ≡ true
  unfolding is_likely_binary
  is_likely_binary-cut len =
      let one : sample_size - length p ≡ 1 = omega (arith, len) in
      let sample = take-append_after sample_size p (c ∷ d ∷ rest) (omega (arith, len)) in
      let cut : take sample_size (p ++ (c ∷ d ∷ rest)) ≡ p ++ (c ∷ []) =
        sample ∙ ap (λ n. p ++ take n (c ∷ d ∷ rest)) one in
      rw (cut, cut_invalid) refl

-- A valid text whose 8192nd byte is the first of the two bytes of a rune counts as binary: the read
-- tool does not show it, and the edit tool refuses it.
pub valid_text-binary :
    (p rest path : Text) (c d : ℕ) (offset limit : ℤ)
    → length p ≡ sample_size - 1
    → utf8_valid p ≡ true
    → Lead c
    → 0x80 ≤ d
    → d ≤ 0xbf
    → utf8_valid rest ≡ true
    → let s = p ++ (c ∷ d ∷ rest) in
      (utf8_valid s ≡ true)
      × (read_content offset limit s
          ≡ ok (codes "File appears to be binary; read tool only returns text files."))
      × ((u : Text) → editable path s ≢ ok u)
unfolding read_content editable
valid_text-binary p rest path c d offset limit len valid first lo hi valid_rest =
    let s = p ++ (c ∷ d ∷ rest) in
    let binary = is_likely_binary-cut p rest c d first lo hi valid len in
    (
      whole_valid p rest c d first lo hi valid valid_rest,
      rw binary refl,
      λ u h. ground (arith, binary),
    )
