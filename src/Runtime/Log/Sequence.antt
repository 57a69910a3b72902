-- ===== src/Runtime/Log/Sequence.antt =====
-- MaxTaskSequence of runtime/log.go, from which a new TaskManager of runtime/task_manager.go counts
-- on.
use zoa.Base.{
  ℕ, zero, suc, ◌+◌, ◌-◌, ◌*◌, ◌/◌, ◌%◌, ◌<◌, ◌≡◌, refl, ap, inl, inr, Bool, true, false, ◌&&◌,
  List, [], ◌∷◌, ◌++◌, arith, ltb, leb, if◌then◌else◌, drop, All, Bool-cases,
}
use mathlib.Core.List.{append_assoc, append-nil}
use zoa.Base.Text.{Text, codes, text_eq, text_neq, has_prefix, decimal, decimal_digits}
use zoa.Base.Sql.{M, query}
use zoa.Runtime.Log.{Row}

abbrev pub is_digit : ℕ → Bool
is_digit c = leb b'0' c && leb c b'9'

-- CAST(s AS INTEGER) of a text: the number that its digits at the beginning make.
unfoldable pub cast_integer : ℕ → Text → ℕ
cast_integer n [] = n
cast_integer n (c ∷ s) =
    let rest = cast_integer (10 * n + (c - b'0')) s in if is_digit c then rest else n

abbrev pub begins_with_digit : Text → Bool
begins_with_digit [] = false
begins_with_digit (c ∷ s) = is_digit c

-- The CASE of the query: GLOB 'task-[0-9]*', then SUBSTR(task_id, 6).
unfoldable pub sequence_of : Text → ℕ
unfolding cast_integer
sequence_of id =
    let rest = drop 5 id in
    if has_prefix id (codes "task-") && begins_with_digit rest then cast_integer 0 rest else 0

abbrev pub max : ℕ → ℕ → ℕ
max m n = if leb m n then n else m

unfoldable pub max_sequence : List Row → ℕ
unfolding sequence_of
max_sequence [] = 0
max_sequence (r ∷ rows) = max (sequence_of r.task_id) (max_sequence rows)

-- MaxTaskSequence
unfoldable pub max_task_sequence : M (List Row) Text ℕ
unfolding max_sequence
max_task_sequence = query max_sequence

-- The id that newRecord gives to the task with a number.
abbrev pub task_id_of : ℕ → Text
task_id_of n = codes "task-" ++ decimal n

cast-decimal_digits :
    (fuel n : ℕ) (s : Text)
    → n < fuel
    → cast_integer 0 (decimal_digits fuel n ++ s) ≡ cast_integer n s
unfolding cast_integer decimal_digits
cast-decimal_digits zero n s h = absurd (omega arith)
cast-decimal_digits (suc fuel) n s h = elim (Bool-cases (ltb n 10)) [
  | inl y ↦
      let digit : is_digit (b'0' + n) ≡ true = ground arith in
      let value : 10 * 0 + (b'0' + n - b'0') ≡ n = omega arith in rw (y, digit, value) refl
  | inr m ↦
      let d = b'0' + n % 10 in
      let digit : is_digit d ≡ true = ground arith in
      let value : 10 * (n / 10) + (d - b'0') ≡ n = omega arith in
      let smaller : n / 10 < fuel = ground arith in
      let high = cast-decimal_digits fuel (n / 10) (d ∷ s) smaller in
      rw (m, append_assoc (decimal_digits fuel (n / 10)) (d ∷ []) s, high, digit, value) refl
]

begins-decimal_digits :
    (fuel n : ℕ) (s : Text) → n < fuel → begins_with_digit (decimal_digits fuel n ++ s) ≡ true
unfolding decimal_digits
begins-decimal_digits zero n s h = absurd (omega arith)
begins-decimal_digits (suc fuel) n s h = elim (Bool-cases (ltb n 10)) [
  | inl y ↦ rw y (ground arith)
  | inr m ↦
      rw (m, append_assoc (decimal_digits fuel (n / 10)) ((b'0' + n % 10) ∷ []) s)
        (begins-decimal_digits fuel (n / 10) ((b'0' + n % 10) ∷ s) (ground arith))
]

sequence-task_id_of : (n : ℕ) → sequence_of (task_id_of n) ≡ n
unfolding sequence_of decimal
sequence-task_id_of n =
    let whole = append-nil (decimal_digits (suc n) n) in
    let begins = rw whole at (begins-decimal_digits (suc n) n [] (omega arith)) in
    let value = rw whole at (cast-decimal_digits (suc n) n [] (omega arith)) in
    rw (begins, value) (unfold cast_integer in refl)

-- The tasks that a new manager numbers, beginning behind the greatest number of the log, have ids that
-- no row of the log has.
pub max_sequence-fresh :
    (rows : List Row) (n : ℕ)
    → max_sequence rows < n
    → All (λ r. text_eq r.task_id (task_id_of n) ≡ false) rows
unfolding max_sequence
max_sequence-fresh [] n h = tt
max_sequence-fresh (r ∷ rows) n h = (
  text_neq r.task_id (task_id_of n)
      (λ e. (ground (arith, ap sequence_of e, sequence-task_id_of n))),
  max_sequence-fresh rows n (ground arith),
)
