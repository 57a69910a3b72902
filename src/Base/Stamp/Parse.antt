-- ===== src/Base/Stamp/Parse.antt =====
-- `time.Parse(time.RFC3339Nano, s)` of the texts that Format writes in UTC.
use Prim.Native.Nat.{ℕ, zero, suc, ◌+◌, ◌-◌, ◌*◌, ◌/◌, ◌%◌, ◌^◌, ◌<◌}
use mathlib.Core.Path.{◌≡◌, refl, ap, ◌∙◌}
use mathlib.Core.Logic.{inl, inr}
use mathlib.Core.Bool.{◌&&◌}
use mathlib.Core.List.{List, [], ◌∷◌, ◌++◌, append_assoc}
use mathlib.Core.Option.{Option, none, some}
use native.Mathlib.Omega.{arith}
use native.Mathlib.Nat.{pow-suc}
use zoa.Base.Tests.{leb, ◌==◌, if◌then◌else◌, Bool-cases}
use zoa.Base.Stamp.Format.{Instant, second, Stamp, digits, stripped, fraction, format}

-- The digits behind the point, `left` of the nine places still to come, and the Z.
parse_digits : ℕ → ℕ → List ℕ → Option ℕ
parse_digits left n [] = none
parse_digits zero n (c ∷ s) = if c == b'Z' then some n else none
parse_digits (suc left) n (c ∷ s) =
    let rest = parse_digits left (10 * n + (c - b'0')) s in
    if c == b'Z' then some (n * 10 ^ suc left) else if leb b'0' c && leb c b'9' then rest else none

parse_fraction : List ℕ → Option ℕ
unfolding parse_digits
parse_fraction [] = none
parse_fraction (c ∷ s) =
    if c == b'Z' then some 0 else if c == b'.' then parse_digits 9 0 s else none

abbrev at_second : ℕ → Option ℕ → Option Instant
at_second s none = none
at_second s (some f) = some (s * second + f)

unfoldable pub parse : Stamp → Option Instant
unfolding parse_fraction
parse t = at_second t.seconds (parse_fraction t.rest)

parse-digits :
    (k left n : ℕ) (s : List ℕ)
    → n < 10 ^ k
    → parse_digits (k + left) 0 (digits k n ++ s) ≡ parse_digits left n s
unfolding parse_digits digits
parse-digits zero left n s h =
    let e : n ≡ 0 = omega arith in let d : 0 + left ≡ left = omega arith in rw (e, d) refl
parse-digits (suc k) left n s h =
    let d = b'0' + n % 10 in
    let e : suc k + left ≡ k + suc left = omega arith in
    let small : n / 10 < 10 ^ k = omega (arith, pow-suc 10 k) in
    let value : 10 * (n / 10) + (d - b'0') ≡ n = omega arith in
    rw
      (
        e,
        append_assoc (digits k (n / 10)) (d ∷ []) s,
        parse-digits k (suc left) (n / 10) (d ∷ s) small,
      )
      (ground arith)

shift : (m n q : ℕ) → n ≡ m * 10 → m * (q * 10) ≡ n * q
shift m n q e = rw e (grind arith)

-- The digits of a fraction with its zeros left out stand for the whole of it.
parse-stripped :
    (k left n : ℕ)
    → n < 10 ^ k
    → 0 < n
    → parse_digits (k + left) 0 (stripped k n ++ (b'Z' ∷ [])) ≡ some (n * 10 ^ left)
unfolding parse_digits stripped
parse-stripped zero left n h lo = absurd (omega arith)
parse-stripped (suc k) left n h lo = elim (Bool-cases (n % 10 == 0)) [
  | inl y ↦
      let e : suc k + left ≡ k + suc left = omega arith in
      let small : n / 10 < 10 ^ k = omega (arith, pow-suc 10 k) in
      let tens : n ≡ n / 10 * 10 = ground arith in
      let value : n / 10 * 10 ^ suc left ≡ n * 10 ^ left =
        rw (pow-suc 10 left) (shift (n / 10) n (10 ^ left) tens) in
      rw (y, e) (parse-stripped k (suc left) (n / 10) small (ground arith) ∙ ap some value)
  | inr m ↦ rw m (parse-digits (suc k) left n (b'Z' ∷ []) h ∙ at_end left n)
]
  where
    at_end : (left n : ℕ) → parse_digits left n (b'Z' ∷ []) ≡ some (n * 10 ^ left)
    at_end zero n = ap some (omega arith)
    at_end (suc left) n = refl

-- Parsing undoes formatting.
pub parse-format : (t : Instant) → parse (format t) ≡ some t
unfolding parse parse_fraction format fraction
parse-format t = elim (Bool-cases (t % second == 0)) [
  | inl y ↦ rw y (ap some (ground arith))
  | inr n ↦
      let part = parse-stripped 9 0 (t % second) (omega arith) (ground arith) in
      rw (n, part) (ap some (omega arith))
]
