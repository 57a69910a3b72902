-- ===== src/Tools/Read/Step.antt =====
-- One round of the loop of ReadTool.Execute, in internal/agentloop/tools/read.go.
use zoa.Base.{
  ℕ, suc, ◌+◌, ◌-◌, ◌≤◌, ◌<◌, ◌≡◌, refl, sym, ap, ◌∙◌, ◌⊎◌, inl, inr, true, false, ◌&&◌, ◌||◌, some,
  List, [], ◌∷◌, ◌++◌, arith, ltb, leb, if◌then◌else◌, length, length-append, Bool-cases,
}
use zoa.Base.Int.{ℤ}
use zoa.Base.Text.{Text, codes}
use zoa.Tools.Truncate.{default_max_lines, default_max_bytes, join_lines, head_lines}
use zoa.Tools.Read.{Reading, past_limit, is_cut, include_line, append_line}
use zoa.Tools.Read.Kept.{
  used, separator_after, separator_after_one, join_lines-append, head_lines-ended, head_lines-next,
}
use zoa.Tools.Read.Pages.{asked, page, At, Asked, Asked-early, Asked-started}

joined :
    (ps : List Text) (l b : Text) (n : ℕ)
    → b ≡ join_lines ps
    → n ≡ length ps
    → b ++ (if ltb 0 n then b'\n' ∷ l else l) ≡ join_lines (ps ++ (l ∷ []))
joined [] l b n e c = rw (e, c) refl
joined (p ∷ ps) l b n e c =
    let some_kept : ltb 0 (suc (length ps)) ≡ true = ground arith in
    rw (e, c, some_kept) (sym (join_lines-append p ps l))

used-append :
    (separator : ℕ) (ps : List Text) (l : Text)
    → used separator (ps ++ (l ∷ []))
      ≡ used separator ps + (length l + separator_after separator ps)
used-append separator [] l = omega arith
used-append separator (p ∷ ps) l = omega (arith, used-append 1 ps l, separator_after_one ps)

separator_of :
    (ps : List Text) (n : ℕ) → n ≡ length ps → (if ltb 0 n then 1 else 0) ≡ separator_after 0 ps
separator_of [] n e = rw e refl
separator_of (p ∷ ps) n e = rw e (ground arith)

leb-cases : (m n : ℕ) → (m ≤ n) ⊎ (n < m)
leb-cases m n = elim (Bool-cases (leb m n)) [
  | inl y ↦ inl (ground arith)
  | inr n' ↦ inr (ground arith)
]

module _ (start : ℕ) (limit : ℤ) (ls : List Text) (l : Text) (r : Reading)
    (at : At start limit ls r) where
  counted_again :
      page start limit (ls ++ (l ∷ [])) ≡ page start limit ls
      → ((is_cut r.cut ≡ false)
          × (page start limit (ls ++ (l ∷ [])) ≡ asked start limit (ls ++ (l ∷ []))))
        ⊎ ((is_cut r.cut ≡ true)
            × (length (page start limit (ls ++ (l ∷ [])))
                < length (asked start limit (ls ++ (l ∷ [])))))
      → At start limit (ls ++ (l ∷ [])) (record r { total_lines = r.total_lines + 1 })
  counted_again same whole = record {
    counted = omega (arith, at.counted, length-append ls (l ∷ []));
    built = at.built ∙ ap join_lines (sym same);
    included = at.included ∙ ap length (sym same);
    bytes = at.bytes ∙ ap (used 0) (sym same);
    last = omega (arith, at.last, ap length same);
    whole = whole;
  }

  cut_here :
      (reason : Text)
      → page start limit ls ≡ asked start limit ls
      → asked start limit (ls ++ (l ∷ [])) ≡ asked start limit ls ++ (l ∷ [])
      → page start limit (ls ++ (l ∷ [])) ≡ asked start limit ls
      → At start limit
          (ls ++ (l ∷ []))
          (record r { total_lines = r.total_lines + 1; cut = some reason })
  cut_here reason full more same = record {
    counted = omega (arith, at.counted, length-append ls (l ∷ []));
    built = at.built ∙ ap join_lines (full ∙ sym same);
    included = at.included ∙ ap length (full ∙ sym same);
    bytes = at.bytes ∙ ap (used 0) (full ∙ sym same);
    last = omega (arith, at.last, ap length full, ap length same);
    whole = inr (
      refl,
      omega (arith, ap length same, ap length more, length-append (asked start limit ls) (l ∷ [])),
    );
  }

  taken :
      page start limit ls ≡ asked start limit ls
      → asked start limit (ls ++ (l ∷ [])) ≡ asked start limit ls ++ (l ∷ [])
      → page start limit (ls ++ (l ∷ [])) ≡ asked start limit ls ++ (l ∷ [])
      → (is_cut r.cut ≡ false)
      → 1 ≤ start
      → start ≤ length ls + 1
      → length (asked start limit ls) ≡ length ls - (start - 1)
      → At start limit (ls ++ (l ∷ [])) (record r {
        total_lines = r.total_lines + 1;
        builder = r.builder ++ (if ltb 0 r.included_lines then b'\n' ∷ l else l);
        included_bytes = r.included_bytes + (length l + (if ltb 0 r.included_lines then 1 else 0));
        included_lines = r.included_lines + 1;
        last_included = r.total_lines + 1;
      })
  taken full more next open_ lo started all =
      let xs = asked start limit ls in
      let c = at.included ∙ ap length full in
      let long = length-append xs (l ∷ []) in
      record {
        counted = omega (arith, at.counted, length-append ls (l ∷ []));
        built =
            joined xs l r.builder r.included_lines (at.built ∙ ap join_lines full) c
            ∙ ap join_lines (sym next);
        included = omega (arith, c, ap length next, long);
        bytes = omega (
          arith,
          at.bytes,
          ap (used 0) full,
          ap (used 0) next,
          used-append 0 xs l,
          separator_of xs r.included_lines c,
        );
        last = omega (arith, at.counted, ap length next, long, all);
        whole = inl (open_, next ∙ sym more);
      }

  asked_next :
      1 ≤ start
      → asked start limit (ls ++ (l ∷ [])) ≡ asked start limit ls ++ (l ∷ [])
      → page start limit ls ≡ asked start limit ls
      → page start limit (ls ++ (l ∷ [])) ≡ (
          if leb (suc (r.included_lines)) default_max_lines
            && leb
                (r.included_bytes + (length l + (if ltb 0 r.included_lines then 1 else 0)))
                default_max_bytes
          then asked start limit ls ++ (l ∷ [])
          else asked start limit ls)
  asked_next lo more full =
      let xs = asked start limit ls in
      let c = at.included ∙ ap length full in
      ap (λ t. (head_lines default_max_lines default_max_bytes 0 t).0) more
      ∙ (rw (c, at.bytes ∙ ap (used 0) full, separator_of xs (length xs) refl)
          (head_lines-next default_max_lines default_max_bytes 0 xs l full))

  include_line-At :
      1 ≤ start
      → start ≤ length ls + 1
      → asked start limit (ls ++ (l ∷ [])) ≡ asked start limit ls ++ (l ∷ [])
      → length (asked start limit ls) ≡ length ls - (start - 1)
      → is_cut r.cut ≡ false
      → page start limit ls ≡ asked start limit ls
      → At start limit
          (ls ++ (l ∷ []))
          (include_line l (r.total_lines + 1) (record r { total_lines = r.total_lines + 1 }))
  include_line-At lo started more all open_ full =
      let next = asked_next lo more full in
      let cost = length l + (if ltb 0 r.included_lines then 1 else 0) in
      elim (Bool-cases (leb default_max_lines r.included_lines)) [
        | inl y ↦
            let few : leb (suc (r.included_lines)) default_max_lines ≡ false = ground arith in
            rw y (cut_here (codes "lines") full more (rw few at next))
        | inr n ↦
            let few : leb (suc (r.included_lines)) default_max_lines ≡ true = ground arith in
            rw n (elim (Bool-cases (ltb default_max_bytes (r.included_bytes + cost))) [
              | inl y ↦
                  let big : leb (r.included_bytes + cost) default_max_bytes ≡ false =
                    ground arith in
                  rw y (cut_here (codes "bytes") full more (rw (few, big) at next))
              | inr m ↦
                  let fits : leb (r.included_bytes + cost) default_max_bytes ≡ true =
                    ground arith in
                  rw m (taken full more (rw (few, fits) at next) open_ lo started all)
            ])
      ]

  number : r.total_lines + 1 ≡ length ls + 1
  number = omega (arith, at.counted)

  passed_over :
      asked start limit (ls ++ (l ∷ [])) ≡ asked start limit ls
      → At start limit (ls ++ (l ∷ [])) (record r { total_lines = r.total_lines + 1 })
  passed_over same =
      let same_page = ap (λ t. (head_lines default_max_lines default_max_bytes 0 t).0) same in
      elim at.whole [
        | inl (open_, full) ↦ counted_again same_page (inl (open_, same_page ∙ full ∙ sym same))
        | inr (shut, short) ↦
            counted_again same_page
              (inr (shut, omega (arith, ap length same_page, ap length same, short)))
      ]

  ended :
      asked start limit (ls ++ (l ∷ [])) ≡ asked start limit ls ++ (l ∷ [])
      → is_cut r.cut ≡ true
      → length (page start limit ls) < length (asked start limit ls)
      → At start limit (ls ++ (l ∷ [])) (record r { total_lines = r.total_lines + 1 })
  ended more shut short =
      let xs = asked start limit ls in
      let same_page =
        ap (λ t. (head_lines default_max_lines default_max_bytes 0 t).0) more
        ∙ head_lines-ended default_max_lines default_max_bytes 0 xs l short in
      counted_again same_page
        (inr (shut, omega (arith, ap length same_page, ap length more, length-append xs (l ∷ []))))

  not_asked :
      asked start limit (ls ++ (l ∷ [])) ≡ asked start limit ls
      → ltb (length ls + 1) start || past_limit limit (length ls + 1 - start + 1) ≡ true
      → At start limit (ls ++ (l ∷ [])) (append_line start limit l r)
  unfolding append_line
  not_asked same test =
      let test' = ap (λ n. ltb n start || past_limit limit (n - start + 1)) number ∙ test in
      elim (Bool-cases (ltb (r.total_lines + 1) start)) [
        | inl y ↦ rw y (passed_over same)
        | inr n ↦ let past = rw n at test' in rw (n, past) (passed_over same)
      ]

  asked_too :
      1 ≤ start
      → asked start limit (ls ++ (l ∷ [])) ≡ asked start limit ls ++ (l ∷ [])
      → ltb (length ls + 1) start ≡ false
      → past_limit limit (length ls + 1 - start + 1) ≡ false
      → length (asked start limit ls) ≡ length ls - (start - 1)
      → At start limit (ls ++ (l ∷ [])) (append_line start limit l r)
  unfolding append_line
  asked_too lo more early past all =
      let early' = ap (λ n. ltb n start) number ∙ early in
      let past' = ap (λ n. past_limit limit (n - start + 1)) number ∙ past in
      rw (early', past')
        (elim at.whole [
          | inl (open_, full) ↦ rw open_ (include_line-At lo (ground arith) more all open_ full)
          | inr (shut, short) ↦ rw shut (ended more shut short)
        ])

  pub append_line-At : 1 ≤ start → At start limit (ls ++ (l ∷ [])) (append_line start limit l r)
  append_line-At lo = elim (leb-cases start (length ls + 1)) [
    | inl started ↦ by_asked (Asked-started start limit ls l lo started)
    | inr early ↦ by_asked (Asked-early start limit ls l early)
  ]
    where
      by_asked :
          Asked start limit ls l → At start limit (ls ++ (l ∷ [])) (append_line start limit l r)
      by_asked (inl (same, test)) = not_asked same test
      by_asked (inr (more, early, past, all)) = asked_too lo more early past all
