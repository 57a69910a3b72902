-- ===== src/Tools/Read/Chunks.antt =====
-- What the loop of ReadTool.Execute, in internal/agentloop/tools/read.go, takes for the lines of a file.
use zoa.Base.{
  ℕ, ◌≡◌, refl, sym, inl, inr, Bool, true, false, List, [], ◌∷◌, ◌++◌, map, ◌==◌, Bool-cases,
}
use zoa.Base.Text.{Text}
use zoa.Tools.Truncate.{cons_first, split_lines}
use zoa.Tools.Read.{read_strings, trim_suffix, has_newline}

-- Whether an empty line follows the last of the chunks.
abbrev pub open_end : List Text → Bool
open_end [] = true
open_end (x ∷ []) = has_newline x
open_end (x ∷ y ∷ xs) = open_end (y ∷ xs)

abbrev pub end_line : Bool → List Text
end_line true = [] ∷ []
end_line false = []

-- The lines of a file: a carriage return at a line's end is left out.
unfoldable pub text_lines : Text → List Text
text_lines s = map (trim_suffix b'\r') (split_lines s)

-- A byte in front of the first chunk, which has a byte, is a byte in front of its line.
abbrev Filled : List Text → Type 0
Filled [] = Unit {0}
Filled (x ∷ xs) = (c : ℕ) × (s : Text) × (x ≡ c ∷ s)

read_strings-Filled : (s : Text) → Filled (read_strings s)
unfolding read_strings
read_strings-Filled [] = tt
read_strings-Filled (c ∷ s) = elim (Bool-cases (c == b'\n')) [
  | inl y ↦ rw y (c, [], refl)
  | inr n ↦ rw n (first (read_strings s))
]
  where
    first : (xs : List Text) → Filled (cons_first c xs)
    first [] = (c, [], refl)
    first (x ∷ xs) = (c, x, refl)

abbrev chunk_lines : List Text → List Text
chunk_lines xs = map (trim_suffix b'\n') xs ++ end_line (open_end xs)

cons_first-lines :
    (c : ℕ) (xs : List Text)
    → (c == b'\n') ≡ false
    → Filled xs
    → chunk_lines (cons_first c xs) ≡ cons_first c (chunk_lines xs)
unfolding trim_suffix has_newline
cons_first-lines c [] n h = rw n refl
cons_first-lines c (x ∷ []) n (d, s, e) = rw e (by_end d s (has_newline (d ∷ s)))
  where
    by_end :
        (d : ℕ) (s : Text) (b : Bool)
        → ((c ∷ trim_suffix b'\n' (d ∷ s)) ∷ []) ++ end_line b
          ≡ cons_first c ((trim_suffix b'\n' (d ∷ s) ∷ []) ++ end_line b)
    by_end d s true = refl
    by_end d s false = refl
cons_first-lines c (x ∷ y ∷ xs) n (d, s, e) = rw e refl

-- The chunks, each without its newline, and the empty line behind a last newline, are the lines.
pub split-read_strings : (s : Text) → split_lines s ≡ chunk_lines (read_strings s)
unfolding split_lines read_strings trim_suffix has_newline
split-read_strings [] = refl
split-read_strings (c ∷ s) = elim (Bool-cases (c == b'\n')) [
  | inl y ↦ rw (y, split-read_strings s) (newline y (read_strings s))
  | inr n ↦
      rw (n, split-read_strings s)
        (sym (cons_first-lines c (read_strings s) n (read_strings-Filled s)))
]
  where
    newline :
        (c == b'\n') ≡ true → (xs : List Text) → [] ∷ chunk_lines xs ≡ chunk_lines ((c ∷ []) ∷ xs)
    newline y [] = rw y refl
    newline y (x ∷ xs) = rw y refl
