-- ===== src/Parser/Message/Time.antt =====
-- `isWithinTimeBoundary`, with EXPORT_TIME_SANITY_CHECK.
use vermont.Base.{ℕ, ◌+◌, ◌-◌, ◌%◌, ◌^◌, ◌≤◌, ◌<◌, ◌≡◌, ◌↔◌, true, false, arith}
use vermont.Parser.Message.{is_within_time_boundary}

-- With the check, exactly the messages of the last day are taken: none whose export time lies in the
-- future, be it by a second, unless it is so far ahead that the difference wraps into that day.
pub is_within_time_boundary_iff :
    (now export_time : ℕ)
    → now < 2 ^ 32
    → export_time < 2 ^ 32
    → (is_within_time_boundary true now export_time ≡ true)
      ↔ ((now + 2 ^ 32 - export_time) % 2 ^ 32 ≤ 86400)
unfolding is_within_time_boundary
is_within_time_boundary_iff now export_time h k = (λ e. ground arith, λ e. ground arith)

-- A message from the future is refused, though the code means to allow an hour: only one that lies more
-- than 2^32 - 86401 seconds ahead would pass.
pub future_refused :
    (now export_time : ℕ)
    → now < export_time
    → export_time < 2 ^ 32
    → export_time - now + 86400 < 2 ^ 32
    → is_within_time_boundary true now export_time ≡ false
unfolding is_within_time_boundary
future_refused now export_time h k l = ground arith
