-- ===== src/Tools/Suffix.antt =====
-- What TruncateTail of internal/agentloop/tools/truncate.go returns.
use zoa.Base.{
  ℕ, zero, suc, ◌+◌, ◌-◌, ◌≤◌, ◌<◌, ◌≡◌, refl, sym, ap, subst, ◌∙◌, ◌⊎◌, inl, inr, true, false,
  ◌&&◌, List, [], ◌∷◌, ◌++◌, arith, leb, length, length-append, count_where, count_where-append,
  Bool-cases, All, All-append, take, drop,
}
use zoa.Base.Cuts.{take-drop, length-drop}
use mathlib.Core.List.{append-nil, append_assoc, reverse, reverse-cons, reverse-reverse}
use zoa.Base.Int.{ℤ, positive_or}
use zoa.Base.Text.{Text}
use zoa.Tools.Truncate.{default_max_lines, default_max_bytes, split_lines, join_lines}
use zoa.Tools.Bytes.{utf8_valid, first_valid, trim_to_last_bytes}
use zoa.Tools.Tail.{tail_lines, truncate_tail}
use zoa.Tools.Lines.{
  is_newline, split_cons, join-split, lines_plain, split-newlines, positive_or_pos,
}

abbrev pub EndsWith : Text → Text → Type 0
EndsWith s t = (front : Text) × (t ≡ front ++ s)

EndsWith-trans : (s t u : Text) → EndsWith s t → EndsWith t u → EndsWith s u
EndsWith-trans s t u (f, e) (g, d) = (g ++ f, d ∙ ap (λ v. g ++ v) e ∙ sym (append_assoc g f s))

-- The lines before the last, each with its newline; the last of them comes first in the list.
abbrev pub preceding : List Text → Text
preceding [] = []
preceding (l ∷ ls) = preceding ls ++ (l ++ (b'\n' ∷ []))

-- A list of lines backwards, as one text.
abbrev pub join_back : List Text → Text
join_back [] = []
join_back (l ∷ ls) = preceding ls ++ l

join-append_last :
    (xs : List Text) (l m : Text)
    → join_lines (xs ++ (l ∷ m ∷ [])) ≡ join_lines (xs ++ (l ∷ [])) ++ (b'\n' ∷ m)
join-append_last [] l m = refl
join-append_last (x ∷ []) l m = sym (append_assoc x (b'\n' ∷ l) (b'\n' ∷ m))
join-append_last (x ∷ y ∷ xs) l m =
    ap (λ t. x ++ (b'\n' ∷ t)) (join-append_last (y ∷ xs) l m)
    ∙ sym (append_assoc x (b'\n' ∷ join_lines ((y ∷ xs) ++ (l ∷ []))) (b'\n' ∷ m))

join-reverse : (ls : List Text) → join_lines (reverse ls) ≡ join_back ls
join-reverse [] = refl
join-reverse (l ∷ []) = refl
join-reverse (l ∷ m ∷ ls) =
    ap join_lines (
      reverse-cons l (m ∷ ls)
      ∙ ap (λ t. t ++ (l ∷ [])) (reverse-cons m ls)
      ∙ append_assoc (reverse ls) (m ∷ []) (l ∷ []))
    ∙ join-append_last (reverse ls) m l
    ∙ ap (λ t. join_lines t ++ (b'\n' ∷ l)) (sym (reverse-cons m ls))
    ∙ ap (λ t. t ++ (b'\n' ∷ l)) (join-reverse (m ∷ ls))
    ∙ (simp append_assoc)

first_valid-EndsWith : (s : Text) → EndsWith (first_valid s) s × (length (first_valid s) ≤ length s)
unfolding first_valid
first_valid-EndsWith [] = (([], refl), omega arith)
first_valid-EndsWith (c ∷ s) =
    let ((front, e), le) = first_valid-EndsWith s in
    elim (Bool-cases (utf8_valid (c ∷ s))) [
      | inl y ↦ rw y (([], refl), omega arith)
      | inr n ↦ rw n ((c ∷ front, ap (λ t. c ∷ t) e), omega (arith, le))
    ]

trim_to_last_bytes-EndsWith :
    (s : Text) (n : ℕ) → EndsWith (trim_to_last_bytes s n) s × (length (trim_to_last_bytes s n) ≤ n)
unfolding trim_to_last_bytes
trim_to_last_bytes-EndsWith s n = elim (Bool-cases (leb (length s) n)) [
  | inl y ↦ rw y (([], refl), ground arith)
  | inr m ↦
      let cut = drop (length s - n) s in
      let (ends, le) = first_valid-EndsWith cut in
      rw m (
        EndsWith-trans (first_valid cut) cut s ends
            (take (length s - n) s, sym (take-drop (length s - n) s)),
        ground (arith, le, length-drop (length s - n) s),
      )
]

-- What the loop keeps of the earlier lines.
pub record KeptBack (left room : ℕ) (lines out : List Text) : Type 0 where
  pub ends : EndsWith (preceding out) (preceding lines)
  pub bytes : length (preceding out) ≤ room
  pub few : length out ≤ left
  pub plain : count_where is_newline (preceding out) ≡ length out

back_none : (left room : ℕ) (lines : List Text) → KeptBack left room lines []
back_none left room lines = record {
  ends = (preceding lines, sym (append-nil (preceding lines)));
  bytes = omega arith;
  few = omega arith;
  plain = refl;
}

back_more :
    (left room : ℕ) (l : Text) (lines out : List Text)
    → length l + 1 ≤ room
    → count_where is_newline l ≡ 0
    → KeptBack left (room - (length l + 1)) lines out
    → KeptBack (suc left) room (l ∷ lines) (l ∷ out)
back_more left room l lines out fits bare k =
    let (front, e) = k.ends in
    let line = l ++ (b'\n' ∷ []) in
    record {
      ends = (front, ap (λ t. t ++ line) e ∙ append_assoc front (preceding out) line);
      bytes =
          omega (arith, k.bytes, length-append (preceding out) line, length-append l (b'\n' ∷ []));
      few = omega (arith, k.few);
      plain = ground (
        arith,
        k.plain,
        count_where-append is_newline (preceding out) line,
        count_where-append is_newline l (b'\n' ∷ []),
      );
    }

Plain : List Text → Type 0
Plain = All λ l. count_where is_newline l ≡ 0

tail_lines-KeptBack :
    (left room : ℕ) (lines : List Text)
    → Plain lines
    → KeptBack left room lines (tail_lines left room 1 lines).0
unfolding tail_lines Plain
tail_lines-KeptBack zero room [] bare = back_none zero room []
tail_lines-KeptBack (suc left) room [] bare = back_none (suc left) room []
tail_lines-KeptBack zero room (l ∷ lines) bare = back_none zero room (l ∷ lines)
tail_lines-KeptBack (suc left) room (l ∷ lines) bare = elim (Bool-cases (leb (length l + 1) room)) [
  | inl y ↦ rw y (
      back_more left room l lines _ (ground arith) bare.0
        (tail_lines-KeptBack left (room - (length l + 1)) lines bare.1))
  | inr n ↦ rw n (back_none (suc left) room (l ∷ lines))
]

-- The text is an end, keeps the limit of bytes, and has fewer newlines than lines are allowed.
abbrev pub WithinEnd : ℕ → ℕ → Text → Text → Type 0
WithinEnd lines bytes whole s =
    EndsWith s whole × (length s ≤ bytes) × (count_where is_newline s < lines)

last_line :
    (left room : ℕ) (l : Text) (ls : List Text)
    → Plain (l ∷ ls)
    → WithinEnd
        (suc left)
        room
        (join_back (l ∷ ls))
        (join_back (tail_lines (suc left) room 0 (l ∷ ls)).0)
unfolding tail_lines Plain
last_line left room l ls bare = elim (Bool-cases (leb (length l + 0) room)) [
  | inl y ↦
      let out = (tail_lines left (room - (length l + 0)) 1 ls).0 in
      let k = tail_lines-KeptBack left (room - (length l + 0)) ls bare.1 in
      let (front, e) = k.ends in
      rw y (
        (front, ap (λ t. t ++ l) e ∙ append_assoc front (preceding out) l),
        ground (arith, k.bytes, length-append (preceding out) l),
        ground (arith, k.plain, k.few, bare.0, count_where-append is_newline (preceding out) l),
      )
  | inr n ↦
      let cut = trim_to_last_bytes l room in
      let ((front, e), le) = trim_to_last_bytes-EndsWith l room in
      rw n (
        (
          preceding ls ++ front,
          ap (λ t. preceding ls ++ t) e ∙ sym (append_assoc (preceding ls) front cut),
        ),
        le,
        omega
            (arith, bare.0, ap (count_where is_newline) e, count_where-append is_newline front cut),
      )
]

All-reverse : (ls : List Text) → Plain ls → Plain (reverse ls)
unfolding Plain
All-reverse [] h = tt
All-reverse (l ∷ ls) h = rw reverse-cons (
    All-append (λ m. count_where is_newline m ≡ 0) (reverse ls) (l ∷ []) (All-reverse ls h.1)
      (h.0, tt))

append_last_cons :
    (xs : List Text) (l : Text) → (m : Text) × (ms : List Text) × (xs ++ (l ∷ []) ≡ m ∷ ms)
append_last_cons [] l = (l, [], refl)
append_last_cons (x ∷ xs) l = (x, xs ++ (l ∷ []), refl)

reverse_split : (s : Text) → (m : Text) × (ms : List Text) × (reverse (split_lines s) ≡ m ∷ ms)
reverse_split s =
    let (l, ls, e) = split_cons s in
    let (m, ms, d) = append_last_cons (reverse ls) l in
    (m, ms, ap reverse e ∙ reverse-cons l ls ∙ d)

kept-WithinEnd :
    (lines bytes : ℕ) (s : Text)
    → 1 ≤ lines
    → WithinEnd lines bytes s
        (join_lines (reverse (tail_lines lines bytes 0 (reverse (split_lines s))).0))
unfolding Plain
kept-WithinEnd zero bytes s le = absurd (omega arith)
kept-WithinEnd (suc left) bytes s le =
    let (l, ls, e) = reverse_split s in
    let whole : join_back (l ∷ ls) ≡ s =
      ap join_back (sym e)
      ∙ sym (join-reverse (reverse (split_lines s)))
      ∙ ap join_lines (reverse-reverse (split_lines s))
      ∙ join-split s in
    rw (e, join-reverse (tail_lines (suc left) bytes 0 (l ∷ ls)).0)
      (subst
        (λ t. WithinEnd (suc left) bytes t (join_back (tail_lines (suc left) bytes 0 (l ∷ ls)).0))
        whole
        (last_line left bytes l ls (subst Plain e (All-reverse (split_lines s) (lines_plain s)))))

-- TruncateTail returns an end of the text with at most as many bytes and lines as the limits say, or
-- as the defaults say where a limit is not positive; and it returns the whole text, and says that it
-- is not truncated, just where the text keeps both limits.
pub truncate_tail-WithinEnd :
    (s : Text) (max_lines max_bytes : ℤ)
    → let line_limit = positive_or default_max_lines max_lines in
      let byte_limit = positive_or default_max_bytes max_bytes in
      let r = truncate_tail s max_lines max_bytes in
      WithinEnd line_limit byte_limit s r.content
      × ((r.truncated ≡ false) → (r.content ≡ s))
      × ((r.truncated ≡ true) → (line_limit < r.total_lines) ⊎ (byte_limit < length s))
unfolding truncate_tail
truncate_tail-WithinEnd s max_lines max_bytes =
    let line_limit = positive_or default_max_lines max_lines in
    let byte_limit = positive_or default_max_bytes max_bytes in
    elim (Bool-cases (leb (length (split_lines s)) line_limit && leb (length s) byte_limit)) [
      | inl y ↦ rw y (
        (([], refl), ground arith, ground (arith, split-newlines s)),
        λ _. refl,
        λ h. absurd (cc),
      )
      | inr n ↦ rw n (
        kept-WithinEnd line_limit byte_limit s
            (positive_or_pos default_max_lines max_lines (omega arith)),
        λ h. absurd (cc),
        λ _. ground arith,
      )
    ]
