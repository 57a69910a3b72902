-- ===== src/Tools/Paths/Inside.antt =====
-- Where the paths lie that Resolve of internal/agentloop/tools/path.go gives.
use zoa.Base.{
  ◌≡◌, refl, sym, ap, subst, ◌∙◌, true, false, ◌||◌, List, [], ◌∷◌, ◌++◌, ◌==◌, arith, inl, inr,
  Bool-cases, All, All-append, count_where,
}
use mathlib.Core.List.{reverse, foldl, reverse-cons}
use zoa.Base.Text.{Text, text_eq, text_eq_sound, text_eq_refl, is_empty}
use zoa.Base.Sql.{ok}
use zoa.Tools.Bytes.{trim_space}
use zoa.Tools.Paths.{
  FilePath, split_path, dot, dot_dot, up, clean_step, is_abs, clean, join_path, print_path,
  rel_segments, rel, goes_up, absolute, outside, resolve, expand_path,
}

-- A name of an entry: no text that has a meaning of its own in a path, and no separator.
pub record IsPlain (s : Text) : Type 0 where
  pub filled : is_empty s ≡ false
  pub not_dot : text_eq s dot ≡ false
  pub not_dot_dot : text_eq s dot_dot ≡ false
  pub no_separator : count_where (λ c. c == b'/') s ≡ 0

NoSeparator : Text → Type 0
NoSeparator s = count_where (λ c. c == b'/') s ≡ 0

split_cons : (s : Text) → (l : Text) × (ls : List Text) × (split_path s ≡ l ∷ ls)
unfolding split_path
split_cons [] = ([], [], refl)
split_cons (c ∷ s) =
    let (l, ls, e) = split_cons s in
    elim (Bool-cases (c == b'/')) [
      | inl y ↦ rw y ([], split_path s, refl)
      | inr n ↦ rw (n, e) (c ∷ l, ls, refl)
    ]

split_path-NoSeparator : (s : Text) → All NoSeparator (split_path s)
unfolding split_path NoSeparator
split_path-NoSeparator [] = (refl, tt)
split_path-NoSeparator (c ∷ s) =
    let (l, ls, e) = split_cons s in
    let plain = split_path-NoSeparator s in
    let plain' = rw e at plain in
    elim (Bool-cases (c == b'/')) [
      | inl y ↦ rw y (refl, plain)
      | inr n ↦ rw (n, e) (rw n plain'.0, plain'.1)
    ]

clean_step-IsPlain :
    (ss : List Text) (s : Text)
    → All IsPlain ss
    → NoSeparator s
    → All IsPlain (clean_step true ss s)
unfolding clean_step NoSeparator
clean_step-IsPlain ss s h bare = elim (Bool-cases (is_empty s || text_eq s dot)) [
  | inl y ↦ rw y h
  | inr n ↦ rw n (elim (Bool-cases (text_eq s dot_dot)) [
    | inl y ↦ rw y (up-IsPlain ss h)
    | inr m ↦ rw m (
      record {
        filled = ground arith;
        not_dot = ground arith;
        not_dot_dot = m;
        no_separator = bare;
      },
      h,
    )
  ])
]
  where
    up-IsPlain : (ss : List Text) → All IsPlain ss → All IsPlain (up true ss)
    up-IsPlain [] h = tt
    up-IsPlain (t ∷ ts) h = rw h.0.not_dot_dot h.1

foldl-IsPlain :
    (ts ss : List Text)
    → All NoSeparator ts
    → All IsPlain ss
    → All IsPlain (foldl (clean_step true) ss ts)
foldl-IsPlain [] ss bare h = h
foldl-IsPlain (t ∷ ts) ss bare h =
    foldl-IsPlain ts (clean_step true ss t) bare.1 (clean_step-IsPlain ss t h bare.0)

reverse-IsPlain : (ss : List Text) → All IsPlain ss → All IsPlain (reverse ss)
reverse-IsPlain [] h = tt
reverse-IsPlain (s ∷ ss) h =
    rw reverse-cons (All-append IsPlain (reverse ss) (s ∷ []) (reverse-IsPlain ss h.1) (h.0, tt))

clean-IsPlain : (s : Text) → is_abs s ≡ true → All IsPlain (clean s).segments
unfolding clean
clean-IsPlain s e =
    rw e (reverse-IsPlain _ (foldl-IsPlain (split_path s) [] (split_path-NoSeparator s) tt))

-- Joining behind an absolute path gives an absolute path.
join_path-abs :
    (root : FilePath) (s : Text)
    → root.rooted ≡ true
    → is_abs (join_path (print_path root) s) ≡ true
unfolding join_path clean
join_path-abs root s e =
    rw e (elim (Bool-cases (is_empty s)) [ inl y ↦ rw y refl | inr n ↦ rw n refl ])

absolute-rooted :
    (root : FilePath) (s : Text)
    → root.rooted ≡ true
    → ((absolute root s).rooted ≡ true) × All IsPlain (absolute root s).segments
unfolding absolute
absolute-rooted root s e = elim (Bool-cases (is_abs s)) [
  | inl y ↦ rw y (unfold clean in y, clean-IsPlain s y)
  | inr n ↦
      let joined = join_path-abs root s e in
      rw n (unfold clean in joined, clean-IsPlain (join_path (print_path root) s) joined)
]

-- A relative path that does not go up leads from the base to the target.
rel_segments-inside :
    (ss ts : List Text) → goes_up (rel_segments ss ts) ≡ false → ts ≡ ss ++ rel_segments ss ts
unfolding rel_segments
rel_segments-inside [] ts h = refl
rel_segments-inside (s ∷ ss) [] h = absurd (cc)
rel_segments-inside (s ∷ ss) (t ∷ ts) h = elim (Bool-cases (text_eq s t)) [
  | inl y ↦
      let rest = rel_segments-inside ss ts (rw y at h) in
      rw y (
        ap (λ u. t ∷ u) rest ∙ ap (λ u. u ∷ (ss ++ rel_segments ss ts)) (sym (text_eq_sound s t y)))
  | inr n ↦ absurd (ground arith)
]

rel_segments-append : (ss ts : List Text) → rel_segments ss (ss ++ ts) ≡ ts
unfolding rel_segments
rel_segments-append [] ts = refl
rel_segments-append (s ∷ ss) ts = rw (text_eq_refl s, rel_segments-append ss ts)

plain_goes_up : (ss : List Text) → All IsPlain ss → goes_up ss ≡ false
plain_goes_up [] h = refl
plain_goes_up (s ∷ ss) h = h.0.not_dot_dot

All-append_right : (ss ts : List Text) → All IsPlain (ss ++ ts) → All IsPlain ts
All-append_right [] ts h = h
All-append_right (s ∷ ss) ts h = All-append_right ss ts h.1

-- The path lies under the root, or is the root.
abbrev pub Under : FilePath → FilePath → Type 0
Under root p = (rest : List Text) × (p.segments ≡ root.segments ++ rest)

outside-Under :
    (root abs p : FilePath) (path : Text)
    → outside path abs (rel_segments root.segments abs.segments) ≡ ok p
    → (abs ≡ p) × Under root abs
outside-Under root abs p path h =
    elim (Bool-cases (goes_up (rel_segments root.segments abs.segments))) [
      | inl y ↦ absurd (ground arith)
      | inr n ↦ (
        ground arith,
        (rel_segments root.segments abs.segments, rel_segments-inside root.segments abs.segments n),
      )
    ]

rel_rooted :
    (root p : FilePath)
    → root.rooted ≡ true
    → p.rooted ≡ true
    → rel root p ≡ ok (rel_segments root.segments p.segments)
unfolding rel
rel_rooted root p e d = simp (e, d) refl

-- With an absolute root, Resolve gives an absolute path of plain names that lies under the root; and
-- it refuses no path that is not blank and that, put behind the root where it is relative, lies there.
pub resolve-Under :
    (root : FilePath) (home path : Text)
    → root.rooted ≡ true
    → ((p : FilePath)
        → resolve root home path ≡ ok p
        → (p.rooted ≡ true) × All IsPlain p.segments × Under root p)
      × (is_empty (trim_space (expand_path home path)) ≡ false
          → Under root (absolute root (expand_path home path))
          → resolve root home path ≡ ok (absolute root (expand_path home path)))
unfolding resolve
resolve-Under root home path e =
    let s = expand_path home path in
    let abs = absolute root s in
    let (rooted, plain) = absolute-rooted root s e in
    elim (Bool-cases (is_empty (trim_space s))) [
      | inl y ↦ (λ p h. absurd (ground arith), λ filled under. absurd (cc))
      | inr n ↦
          rw (n, rel_rooted root abs e rooted)
            (
              λ p h.
                  let (same, under) = outside-Under root abs p path h in
                  subst (λ q. (q.rooted ≡ true) × All IsPlain q.segments × Under root q) same
                    (rooted, plain, under),
              λ filled (rest, d).
                  let plain_rest =
                    All-append_right root.segments rest (subst (All IsPlain) d plain) in
                  rw (d, rel_segments-append root.segments rest, plain_goes_up rest plain_rest)
                    refl,
            )
    ]
