-- ===== src/Base/Stamp/Order.antt =====
-- How far the order of the texts is the order of the times.
use mathlib.Core.Path.{◌≡◌}
use mathlib.Core.Bool.{true}
use native.Mathlib.Omega.{arith}
use Prim.Native.Nat.{ℕ, ◌+◌, ◌*◌, ◌/◌, ◌%◌, ◌<◌}
use zoa.Base.Stamp.Format.{Instant, second, format, stamp_le}

-- A text that is not above another belongs to a time that is less than a second later than the
-- other's.
pub stamp_le-format : (a b : Instant) → stamp_le (format a) (format b) ≡ true → a < b + second
unfolding stamp_le format
stamp_le-format a b h = ground arith

-- A time of a strictly earlier second has the smaller text.
pub format_earlier_second :
    (a b : Instant) → a / second < b / second → stamp_le (format a) (format b) ≡ true
unfolding stamp_le format
format_earlier_second a b h = ground arith

-- Within a second the texts run against the times: a time with a fraction is below the whole
-- second that it follows.
pub format_fraction_below_whole :
    (s f : ℕ) → 0 < f → f < second → stamp_le (format (s * second + f)) (format (s * second)) ≡ true
unfolding stamp_le format
format_fraction_below_whole s f lo hi =
    let whole : (s * second + f) / second ≡ s = omega arith in
    let part : (s * second + f) % second ≡ f = omega arith in
    let whole0 : s * second / second ≡ s = omega arith in
    let part0 : s * second % second ≡ 0 = omega arith in
    rw (whole, part, whole0, part0) (ground arith)
