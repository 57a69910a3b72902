-- ===== src/Tools/Read/Loop.antt =====
-- The whole loop of ReadTool.Execute, in internal/agentloop/tools/read.go, and what it leaves to read.
use zoa.Base.{
  ℕ, zero, suc, ◌-◌, ◌≤◌, ◌≡◌, refl, sym, ap, subst, ◌∙◌, inl, Bool, true, false, ◌||◌, List, [],
  ◌∷◌, ◌++◌, map, arith, ◌==◌, length,
}
use mathlib.Core.List.{append_assoc, append-nil, foldl}
use zoa.Base.Cuts.{drop-nil}
use zoa.Base.Int.{ℤ, pos, negsuc}
use zoa.Base.Text.{Text}
use zoa.Tools.Truncate.{default_max_lines, default_max_bytes, join_lines, head_lines}
use zoa.Tools.Read.Kept.{used}
use zoa.Tools.Read.{
  read_strings, trim_suffix, has_newline, bare_line, Reading, not_started, read_chunk, empty_line,
  last_line, read_lines,
}
use zoa.Tools.Read.Chunks.{open_end, end_line, text_lines, split-read_strings}
use zoa.Tools.Read.Pages.{At, page, asked}
use zoa.Tools.Read.Step.{append_line-At}

-- The newline at the end of the last chunk, or `b` where there is no chunk.
ended_after : Bool → List Text → Bool
ended_after b [] = b
ended_after b (x ∷ xs) = ended_after (has_newline x) xs

open_end-ended_after :
    (x : Text) (xs : List Text) → open_end (x ∷ xs) ≡ ended_after (has_newline x) xs
unfolding ended_after
open_end-ended_after x [] = refl
open_end-ended_after x (y ∷ xs) = open_end-ended_after y xs

bare_lines :
    (xs : List Text) (b : Bool)
    → map (trim_suffix b'\r') (map (trim_suffix b'\n') xs ++ end_line b)
      ≡ map bare_line xs ++ end_line b
unfolding trim_suffix
bare_lines [] true = refl
bare_lines [] false = refl
bare_lines (x ∷ xs) b = ap (λ t. bare_line x ∷ t) (bare_lines xs b)

asked_nil : (limit : ℤ) (start : ℕ) → asked start limit [] ≡ []
asked_nil (pos zero) start = drop-nil (start - 1)
asked_nil (pos (suc k)) start = rw drop-nil refl
asked_nil (negsuc k) start = drop-nil (start - 1)

module _ (start : ℕ) (limit : ℤ) (lo : 1 ≤ start) where
  ended-foldl :
      (xs : List Text) (r : Reading)
      → (foldl (read_chunk start limit) r xs).ended_with_newline
        ≡ ended_after r.ended_with_newline xs
  unfolding ended_after read_chunk
  ended-foldl [] r = refl
  ended-foldl (x ∷ xs) r = ended-foldl xs (read_chunk start limit r x)

  flagged :
      (ls : List Text) (r : Reading) (b : Bool)
      → At start limit ls r
      → At start limit ls (record r { ended_with_newline = b })
  flagged ls r b at = record {
    counted = at.counted;
    built = at.built;
    included = at.included;
    bytes = at.bytes;
    last = at.last;
    whole = at.whole;
  }

  foldl-At :
      (xs ls : List Text) (r : Reading)
      → At start limit ls r
      → At start limit (ls ++ map bare_line xs) (foldl (read_chunk start limit) r xs)
  unfolding read_chunk
  foldl-At [] ls r at = rw append-nil at
  foldl-At (x ∷ xs) ls r at =
      let step =
        flagged (ls ++ (bare_line x ∷ [])) _ (has_newline x)
          (append_line-At start limit ls (bare_line x) r at lo) in
      subst (λ t. At start limit t (foldl (read_chunk start limit) r (x ∷ xs)))
        (append_assoc ls (bare_line x ∷ []) (map bare_line xs))
        (foldl-At xs (ls ++ (bare_line x ∷ [])) (read_chunk start limit r x) step)

  not_started-At : At start limit [] (not_started start limit)
  unfolding head_lines
  not_started-At =
      let none_asked = asked_nil limit start in
      let no_page : page start limit [] ≡ [] =
        ap (λ t. (head_lines default_max_lines default_max_bytes 0 t).0) none_asked in
      record {
        counted = refl;
        built = ap join_lines (sym no_page);
        included = ap length (sym no_page);
        bytes = ap (used 0) (sym no_page);
        last = omega (arith, ap length no_page);
        whole = inl (refl, no_page ∙ sym none_asked);
      }

  empty_line-At :
      (ls : List Text) (r : Reading) (b : Bool)
      → At start limit ls r
      → At start limit (ls ++ end_line b) (empty_line start limit b r)
  empty_line-At ls r true at = append_line-At start limit ls [] r at lo
  empty_line-At ls r false at = rw append-nil at

  last_line-At :
      (xs : List Text)
      → At start limit
          (map bare_line xs ++ end_line (open_end xs))
          (last_line start limit (foldl (read_chunk start limit) (not_started start limit) xs))
  last_line-At [] = append_line-At start limit [] [] (not_started start limit) not_started-At lo
  last_line-At (x ∷ xs) =
      let r = foldl (read_chunk start limit) (not_started start limit) (x ∷ xs) in
      let at = foldl-At (x ∷ xs) [] (not_started start limit) not_started-At in
      let some_line : (r.total_lines == 0) ≡ false = ground (arith, at.counted) in
      let flag : (r.total_lines == 0 || r.ended_with_newline) ≡ open_end (x ∷ xs) =
        ap (λ b. b || r.ended_with_newline) some_line
        ∙ ended-foldl (x ∷ xs) (not_started start limit)
        ∙ (unfold ended_after in sym (open_end-ended_after x xs)) in
      subst
        (λ b.
          At start limit (map bare_line (x ∷ xs) ++ end_line (open_end (x ∷ xs)))
            (empty_line start limit b r))
        (sym flag) (empty_line-At (map bare_line (x ∷ xs)) r (open_end (x ∷ xs)) at)

  pub read_lines-At :
      (content : Text) → At start limit (text_lines content) (read_lines start limit content)
  unfolding read_lines text_lines
  read_lines-At content =
      let xs = read_strings content in
      subst (λ t. At start limit t (read_lines start limit content))
        (sym
          (ap (map (trim_suffix b'\r')) (split-read_strings content) ∙ bare_lines xs (open_end xs)))
        (last_line-At xs)
