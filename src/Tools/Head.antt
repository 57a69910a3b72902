-- ===== src/Tools/Head.antt =====
-- What TruncateHead of internal/agentloop/tools/truncate.go returns.
use zoa.Base.{
  ℕ, zero, suc, ◌+◌, ◌-◌, ◌≤◌, ◌<◌, ◌≡◌, refl, sym, ap, subst, ◌∙◌, ◌⊎◌, inl, inr, true, false,
  ◌&&◌, List, [], ◌∷◌, ◌++◌, arith, leb, length, length-append, count_where, count_where-append,
  Bool-cases, All,
}
use zoa.Base.Int.{ℤ, positive_or}
use zoa.Base.Text.{Text}
use mathlib.Core.List.{append-nil, append_assoc}
use zoa.Tools.Lines.{
  is_newline, split_cons, join-split, lines_plain, split-newlines, positive_or_pos,
}
use zoa.Tools.Truncate.{
  default_max_lines, default_max_bytes, split_lines, join_lines, head_lines, truncate_head,
}

abbrev pub BeginsWith : Text → Text → Type 0
BeginsWith s t = (rest : Text) × (t ≡ s ++ rest)

-- Lines after the first, each behind its newline.
abbrev pub continued : List Text → Text
continued [] = []
continued (l ∷ ls) = b'\n' ∷ (l ++ continued ls)

join-continued : (l : Text) (ls : List Text) → join_lines (l ∷ ls) ≡ l ++ continued ls
join-continued l [] = sym (append-nil l)
join-continued l (m ∷ ls) = ap (λ t. l ++ (b'\n' ∷ t)) (join-continued m ls)

-- What the loop keeps of the later lines.
pub record KeptOf (left room : ℕ) (lines out : List Text) : Type 0 where
  pub begins : BeginsWith (continued out) (continued lines)
  pub bytes : length (continued out) ≤ room
  pub few : length out ≤ left
  pub plain : count_where is_newline (continued out) ≡ length out

kept_none : (left room : ℕ) (lines : List Text) → KeptOf left room lines []
kept_none left room lines = record {
  begins = (continued lines, refl);
  bytes = omega arith;
  few = omega arith;
  plain = refl;
}

kept_more :
    (left room : ℕ) (l : Text) (lines out : List Text)
    → length l + 1 ≤ room
    → count_where is_newline l ≡ 0
    → KeptOf left (room - (length l + 1)) lines out
    → KeptOf (suc left) room (l ∷ lines) (l ∷ out)
kept_more left room l lines out fits bare k =
    let (rest, e) = k.begins in
    record {
      begins = (
        rest,
        ap (λ t. b'\n' ∷ (l ++ t)) e
            ∙ ap (λ t. b'\n' ∷ t) (sym (append_assoc l (continued out) rest)),
      );
      bytes = omega (arith, k.bytes, length-append l (continued out));
      few = omega (arith, k.few);
      plain = ground (arith, k.plain, count_where-append is_newline l (continued out));
    }

head_lines-KeptOf :
    (left room : ℕ) (lines : List Text)
    → All (λ l. count_where is_newline l ≡ 0) lines
    → KeptOf left room lines (head_lines left room 1 lines).0
unfolding head_lines
head_lines-KeptOf zero room [] bare = kept_none zero room []
head_lines-KeptOf (suc left) room [] bare = kept_none (suc left) room []
head_lines-KeptOf zero room (l ∷ lines) bare = kept_none zero room (l ∷ lines)
head_lines-KeptOf (suc left) room (l ∷ lines) bare = elim (Bool-cases (leb (length l + 1) room)) [
  | inl y ↦ rw y (
      kept_more left room l lines _ (ground arith) bare.0
        (head_lines-KeptOf left (room - (length l + 1)) lines bare.1))
  | inr n ↦ rw n (kept_none (suc left) room (l ∷ lines))
]

-- The text is a beginning, keeps the limit of bytes, and has fewer newlines than lines are allowed.
abbrev pub Within : ℕ → ℕ → Text → Text → Type 0
Within lines bytes whole s =
    BeginsWith s whole × (length s ≤ bytes) × (count_where is_newline s < lines)

first_line :
    (left room : ℕ) (l : Text) (ls : List Text)
    → All (λ l. count_where is_newline l ≡ 0) (l ∷ ls)
    → Within
        (suc left)
        room
        (join_lines (l ∷ ls))
        (join_lines (head_lines (suc left) room 0 (l ∷ ls)).0)
unfolding head_lines
first_line left room l ls bare = elim (Bool-cases (leb (length l + 0) room)) [
  | inl y ↦
      let out = (head_lines left (room - (length l + 0)) 1 ls).0 in
      let k = head_lines-KeptOf left (room - (length l + 0)) ls bare.1 in
      let (rest, e) = k.begins in
      rw (y, join-continued l ls, join-continued l out)
        (
          (rest, ap (λ t. l ++ t) e ∙ sym (append_assoc l (continued out) rest)),
          ground (arith, k.bytes, length-append l (continued out)),
          ground (arith, k.plain, k.few, bare.0, count_where-append is_newline l (continued out)),
        )
  | inr n ↦ rw n ((join_lines (l ∷ ls), refl), omega arith, omega arith)
]

kept-Within :
    (lines bytes : ℕ) (s : Text)
    → 1 ≤ lines
    → Within lines bytes s (join_lines (head_lines lines bytes 0 (split_lines s)).0)
kept-Within zero bytes s le = absurd (omega arith)
kept-Within (suc left) bytes s le =
    let (l, ls, e) = split_cons s in
    rw e (
      subst (λ t. Within (suc left) bytes t (join_lines (head_lines (suc left) bytes 0 (l ∷ ls)).0))
        (ap join_lines (sym e) ∙ join-split s)
        (first_line left bytes l ls
          (subst (All (λ l. count_where is_newline l ≡ 0)) e (lines_plain s))))

-- TruncateHead returns a beginning of the text with at most as many bytes and lines as the limits
-- say, or as the defaults say where a limit is not positive; and it returns the whole text, and says
-- that it is not truncated, just where the text keeps both limits.
pub truncate_head-Within :
    (s : Text) (max_lines max_bytes : ℤ)
    → let line_limit = positive_or default_max_lines max_lines in
      let byte_limit = positive_or default_max_bytes max_bytes in
      let r = truncate_head s max_lines max_bytes in
      Within line_limit byte_limit s r.content
      × ((r.truncated ≡ false) → (r.content ≡ s))
      × ((r.truncated ≡ true) → (line_limit < r.total_lines) ⊎ (byte_limit < length s))
unfolding truncate_head
truncate_head-Within s max_lines max_bytes =
    let line_limit = positive_or default_max_lines max_lines in
    let byte_limit = positive_or default_max_bytes max_bytes in
    elim (Bool-cases (leb (length (split_lines s)) line_limit && leb (length s) byte_limit)) [
      | inl y ↦ rw y (
        (([], sym (append-nil s)), ground arith, ground (arith, split-newlines s)),
        λ _. refl,
        λ h. absurd (cc),
      )
      | inr n ↦ rw n (
        kept-Within line_limit byte_limit s
            (positive_or_pos default_max_lines max_lines (omega arith)),
        λ h. absurd (cc),
        λ _. ground arith,
      )
    ]
