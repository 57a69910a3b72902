-- ===== src/Base/Stamp/Format.antt =====
-- `t.UTC().Format(time.RFC3339Nano)` for the years 0 to 9999: "2006-01-02T15:04:05", then a
-- fraction without its trailing zeros, then "Z".
use Prim.Native.Nat.{ℕ, zero, suc, ◌+◌, ◌/◌, ◌%◌}
use mathlib.Core.Bool.{Bool, true, false, ◌&&◌, ◌||◌}
use mathlib.Core.List.{List, [], ◌∷◌, ◌++◌}
use mathlib.Core.Option.{Option, none, some}
use zoa.Base.Tests.{ltb, ◌==◌, if◌then◌else◌}

-- Nanoseconds since the year 0.
abbrev pub Instant : Type 0
Instant = ℕ

abbrev pub second : ℕ
second = 1_000_000_000

-- `seconds` stands for the first nineteen bytes, `rest` are the bytes behind them.
pub record Stamp : Type 0 where
  pub seconds : ℕ
  pub rest : List ℕ

-- The last `k` decimal digits of `n`.
unfoldable pub digits : ℕ → ℕ → List ℕ
digits zero n = []
digits (suc k) n = digits k (n / 10) ++ ((b'0' + n % 10) ∷ [])

-- The same with the zeros at the end left out.
unfoldable pub stripped : ℕ → ℕ → List ℕ
unfolding digits
stripped zero n = []
stripped (suc k) n = if n % 10 == 0 then stripped k (n / 10) else digits (suc k) n

unfoldable pub fraction : ℕ → List ℕ
unfolding stripped
fraction f = if f == 0 then b'Z' ∷ [] else b'.' ∷ (stripped 9 f ++ (b'Z' ∷ []))

unfoldable pub format : Instant → Stamp
unfolding fraction
format t = record { seconds = t / second; rest = fraction (t % second) }

abbrev pub bytes_le : List ℕ → List ℕ → Bool
bytes_le [] t = true
bytes_le (a ∷ s) [] = false
bytes_le (a ∷ s) (b ∷ t) = ltb a b || (a == b && bytes_le s t)

-- `a <= b` between two columns of type TEXT.
unfoldable pub stamp_le : Stamp → Stamp → Bool
stamp_le a b = ltb a.seconds b.seconds || (a.seconds == b.seconds && bytes_le a.rest b.rest)

-- `a IS NULL OR a <= b`
abbrev pub null_or_le : Option Stamp → Stamp → Bool
null_or_le none b = true
null_or_le (some a) b = stamp_le a b
