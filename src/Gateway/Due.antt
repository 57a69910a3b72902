-- ===== src/Gateway/Due.antt =====
-- When a message is due for claimDueInboundID of hub/util/gateway/state.go, which compares times
-- as text.
use zoa.Base.{ℕ, ◌+◌, ◌*◌, ◌<◌, ◌/◌, ◌≡◌, ◌⊎◌, inl, inr, true, some, arith}
use zoa.Base.Stamp.{Instant, second, format}
use zoa.Base.Stamp.Order.{stamp_le-format, format_earlier_second, format_fraction_below_whole}
use zoa.Gateway.Tables.{pending, processing, Inbound}
use zoa.Gateway.Inbound.{claimable}

-- The row waits for `t`: it is pending until then, or held under a lease until then.
abbrev pub WaitsFor : Instant → Inbound → Type 0
WaitsFor t r =
    ((r.status ≡ pending) × (r.next_attempt_at ≡ some (format t)))
    ⊎ ((r.status ≡ processing) × (r.lease_until ≡ some (format t)))

-- A message that waits for `t` can be claimed at `now` only if `now` is less than a second before
-- `t`; and it can be claimed from the first second after that of `t` on.
pub claimable-due :
    (r : Inbound) (t now : Instant)
    → WaitsFor t r
    → (claimable r.id (format now) r ≡ true → t < now + second)
      × (t / second < now / second → claimable r.id (format now) r ≡ true)
claimable-due r t now (inl (s, n)) =
    (λ h. ground (arith, stamp_le-format t now), λ h. ground (arith, format_earlier_second t now h))
claimable-due r t now (inr (s, n)) =
    (λ h. ground (arith, stamp_le-format t now), λ h. ground (arith, format_earlier_second t now h))

-- A message that waits for a time within a second can be claimed at the start of that second,
-- before it is due or while its lease still runs.
pub claimable-early :
    (r : Inbound) (s f : ℕ)
    → 0 < f
    → f < second
    → WaitsFor (s * second + f) r
    → (claimable r.id (format (s * second)) r ≡ true) × (s * second < s * second + f)
claimable-early r s f lo hi (inl (p, n)) =
    (ground (arith, format_fraction_below_whole s f lo hi), omega arith)
claimable-early r s f lo hi (inr (p, n)) =
    (ground (arith, format_fraction_below_whole s f lo hi), omega arith)
