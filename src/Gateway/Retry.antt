-- ===== src/Gateway/Retry.antt =====
-- The retry policy of hub/util/gateway/functions.go: which errors are retried, after what delay,
-- and how often a lease is renewed. Durations are nanoseconds.
use zoa.Base.{
  ℕ, zero, suc, ◌*◌, ◌/◌, ◌≤◌, ◌<◌, Bool, false, List, [], ◌∷◌, arith, ltb, leb, any_of,
  if◌then◌else◌,
}
use zoa.Base.Int.{ℤ, pos, negsuc}
use zoa.Base.Text.{Text, codes, is_empty, trim, to_lower, contains}
use zoa.Base.Stamp.{second}

-- The texts that isRetryableInboundError looks for, in its order.
abbrev pub retryable_marks : List Text
retryable_marks =
    codes "overloaded"
    ∷ codes "rate limit"
    ∷ codes "timeout"
    ∷ codes "deadline exceeded"
    ∷ codes "temporar"
    ∷ codes "connection reset"
    ∷ codes "connection refused"
    ∷ codes "internal server"
    ∷ codes "500"
    ∷ codes "502"
    ∷ codes "503"
    ∷ codes "504"
    ∷ codes "529"
    ∷ []

unfoldable pub is_retryable_inbound_error : Text → Bool
unfolding trim to_lower
is_retryable_inbound_error error =
    let text = to_lower (trim error) in
    if is_empty text then false else any_of (contains text) retryable_marks

unfoldable pub inbound_retry_backoff : ℕ → ℕ
inbound_retry_backoff attempt =
    if leb attempt 1
    then second
    else if leb attempt 2
    then 2 * second
    else if leb attempt 3
    then 5 * second
    else if leb attempt 4
    then 10 * second
    else if leb attempt 5
    then 20 * second
    else 30 * second

clamp_interval : ℕ → ℕ
clamp_interval interval =
    if ltb interval (5 * second)
    then 5 * second
    else if ltb (30 * second) interval
    then 30 * second
    else interval

-- 0 is "no heartbeat".
unfoldable pub inbound_lease_heartbeat_interval : ℤ → ℕ
unfolding clamp_interval
inbound_lease_heartbeat_interval (negsuc n) = 0
inbound_lease_heartbeat_interval (pos zero) = 0
inbound_lease_heartbeat_interval (pos (suc n)) = clamp_interval (suc n / 3)

-- Later attempts never wait less, and no attempt waits less than a second or more than thirty.
pub inbound_retry_backoff_mono :
    (a b : ℕ)
    → a ≤ b
    → (inbound_retry_backoff a ≤ inbound_retry_backoff b)
      × (second ≤ inbound_retry_backoff a)
      × (inbound_retry_backoff b ≤ 30 * second)
unfolding inbound_retry_backoff
inbound_retry_backoff_mono a b h = ground arith

-- For a lease of more than five seconds a heartbeat falls before the lease runs out, and at most
-- every thirty seconds; for a positive lease of five seconds or less none does.
pub heartbeat-lt-lease :
    (lease : ℕ)
    → 0 < lease
    → (5 * second < lease
        → (0 < inbound_lease_heartbeat_interval (pos lease))
          × (inbound_lease_heartbeat_interval (pos lease) < lease)
          × (inbound_lease_heartbeat_interval (pos lease) ≤ 30 * second))
      × (lease ≤ 5 * second → lease ≤ inbound_lease_heartbeat_interval (pos lease))
unfolding inbound_lease_heartbeat_interval
heartbeat-lt-lease zero h = absurd (omega arith)
heartbeat-lt-lease (suc n) h = ground arith
