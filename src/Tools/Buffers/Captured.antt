-- ===== src/Tools/Buffers/Captured.antt =====
-- What tailBuffer of internal/agentloop/tools/bash.go and cappedBuffer of grep.go hold of a command's
-- output.
use zoa.Base.{
  ℕ, zero, suc, ◌+◌, ◌-◌, ◌≤◌, ◌<◌, ◌≡◌, refl, sym, ap, ◌∙◌, true, false, List, [], ◌∷◌, ◌++◌,
  arith, inl, inr, ltb, leb, ◌==◌, length, length-append, take, drop, Bool-cases,
}
use zoa.Base.Cuts.{
  take_last, drop-append_before, drop-append_after, drop-drop, length-drop, take-append_before,
  take-append_after, take_all, length-take,
}
use mathlib.Core.List.{foldl, append-nil, append_assoc}
use zoa.Base.Int.{ℤ, positive_or}
use zoa.Base.Text.{Text}
use zoa.Tools.Buffers.{
  Buffer, max_captured_bytes, new_buffer, write_tail, write_capped, is_truncated,
}

-- What a command has written.
abbrev pub written : List Text → Text
written [] = []
written (p ∷ ps) = p ++ written ps

take_last-append_long : (n : ℕ) (s p : Text) → n ≤ length p → take_last n (s ++ p) ≡ take_last n p
take_last-append_long n s p h =
    let len = length-append s p in
    drop-append_after (length (s ++ p) - n) s p (omega (arith, len))
    ∙ ap (λ k. drop k p) (omega (arith, len))

take_last-append_short :
    (n : ℕ) (s p : Text)
    → length p ≤ n
    → take_last n (s ++ p) ≡ drop (length (take_last n s) + length p - n) (take_last n s) ++ p
take_last-append_short n s p h =
    let len = length-append s p in
    let kept = length-drop (length s - n) s in
    drop-append_before (length (s ++ p) - n) s p (omega (arith, len))
    ∙ ap (λ k. drop k s ++ p) (omega (arith, len, kept))
    ∙ ap (λ u. u ++ p) (sym (drop-drop (length (take_last n s) + length p - n) (length s - n) s))

-- The buffer holds the last bytes of the output so far.
pub record TailOf (max : ℕ) (out : Text) (b : Buffer) : Type 0 where
  pub limit : b.max ≡ max
  pub counted : b.total ≡ length out
  pub last : b.buf ≡ take_last max out

write_tail-TailOf :
    (max : ℕ) (out p : Text) (b : Buffer)
    → 0 < max
    → TailOf max out b
    → TailOf max (out ++ p) (write_tail b p)
unfolding write_tail
write_tail-TailOf max out p b lo t =
    let open_limit : (max == 0) ≡ false = ground arith in
    record {
      limit = t.limit;
      counted = omega (arith, t.counted, length-append out p);
      last = elim (Bool-cases (leb max (length p))) [
        | inl y ↦ rw (t.limit, open_limit, y) (sym (take_last-append_long max out p (ground arith)))
        | inr n ↦
            rw (t.limit, open_limit, n, t.last)
              (sym (take_last-append_short max out p (ground arith)))
      ];
    }

writes-TailOf :
    (max : ℕ) (ps : List Text) (out : Text) (b : Buffer)
    → 0 < max
    → TailOf max out b
    → TailOf max (out ++ written ps) (foldl write_tail b ps)
writes-TailOf max [] out b lo t = rw append-nil t
writes-TailOf max (p ∷ ps) out b lo t =
    rw append_assoc at
      (writes-TailOf max ps (out ++ p) (write_tail b p) lo (write_tail-TailOf max out p b lo t))

-- The buffer holds the first bytes of the output so far.
pub record HeadOf (max : ℕ) (out : Text) (b : Buffer) : Type 0 where
  pub limit : b.max ≡ max
  pub counted : b.total ≡ length out
  pub first : b.buf ≡ take max out

positive_or_pos : (default : ℕ) (z : ℤ) → 0 < default → 0 < positive_or default z
positive_or_pos default (ℤ.pos zero) h = h
positive_or_pos default (ℤ.pos (suc n)) h = omega arith
positive_or_pos default (ℤ.negsuc n) h = h

-- However a command's output comes in pieces, tailBuffer holds the last bytes of all of it, as many
-- as its limit allows, and counts all the bytes.
pub write_tail-last :
    (max_bytes : ℤ) (ps : List Text)
    → TailOf
        (positive_or max_captured_bytes max_bytes)
        (written ps)
        (foldl write_tail (new_buffer max_bytes) ps)
write_tail-last max_bytes ps =
    writes-TailOf (positive_or max_captured_bytes max_bytes) ps [] (new_buffer max_bytes)
      (positive_or_pos max_captured_bytes max_bytes (omega arith))
      record { limit = refl; counted = refl; last = ground arith }

write_capped-HeadOf :
    (max : ℕ) (out p : Text) (b : Buffer)
    → HeadOf max out b
    → HeadOf max (out ++ p) (write_capped b p)
unfolding write_capped
write_capped-HeadOf max out p b t = record {
  limit = t.limit;
  counted = omega (arith, t.counted, length-append out p);
  first = elim (Bool-cases (leb max (length out))) [
    | inl y ↦
        let full = length-take max out (ground arith) in
        let none_left : ltb 0 (max - length (take max out)) ≡ false = ground (arith, full) in
        rw (t.limit, t.first, none_left) (sym (take-append_before max out p (ground arith)))
    | inr n ↦
        let whole = take_all max out (ground arith) in
        let some_left : ltb 0 (max - length out) ≡ true = ground arith in
        rw (t.limit, t.first, whole, some_left, take-append_after max out p (ground arith))
          (elim (Bool-cases (ltb (max - length out) (length p))) [
            | inl y ↦ rw y
            | inr m ↦ rw m (ap (λ u. out ++ u) (sym (take_all (max - length out) p (ground arith))))
          ])
  ];
}

writes-HeadOf :
    (max : ℕ) (ps : List Text) (out : Text) (b : Buffer)
    → HeadOf max out b
    → HeadOf max (out ++ written ps) (foldl write_capped b ps)
writes-HeadOf max [] out b t = rw append-nil t
writes-HeadOf max (p ∷ ps) out b t =
    rw append_assoc at
      (writes-HeadOf max ps (out ++ p) (write_capped b p) (write_capped-HeadOf max out p b t))

take-nil : (n : ℕ) → [] ≡ take {A = ℕ} n []
take-nil zero = refl
take-nil (suc n) = refl

-- However a command's output comes in pieces, cappedBuffer holds its first bytes, as many as its
-- limit allows, and says that it is truncated just where bytes are missing.
pub write_capped-first :
    (max_bytes : ℤ) (ps : List Text)
    → let b = foldl write_capped (new_buffer max_bytes) ps in
      HeadOf (positive_or max_captured_bytes max_bytes) (written ps) b
      × ((is_truncated b ≡ false) → (b.buf ≡ written ps))
      × ((is_truncated b ≡ true) → (length b.buf < length (written ps)))
write_capped-first max_bytes ps =
    let max = positive_or max_captured_bytes max_bytes in
    let h =
      writes-HeadOf max ps [] (new_buffer max_bytes)
        record { limit = refl; counted = refl; first = take-nil max } in
    (
      h,
      λ e. h.first ∙ take_all max (written ps) (ground (arith, h.limit, h.counted)),
      λ e. rw h.first (ground (arith, h.limit, h.counted, length-take max (written ps))),
    )
