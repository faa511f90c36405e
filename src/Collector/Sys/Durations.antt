-- ===== src/Collector/Sys/Durations.antt =====
-- internal/collector/sys_collector.go, `formatUptime`: the numbers of the text, without their printing.
use machmqtt_dashboard.Prelude.{
  ℕ, ◌+◌, ◌-◌, ◌*◌, ◌/◌, ◌%◌, ◌<◌, ◌≡◌, ltb, if◌then◌else◌, if_elim, arith,
}

-- `3s`, `2m3s`, `1h2m3s` and `4d1h2m3s`.
pub data Uptime : Type 0 where
  seconds : ℕ → Uptime
  minutes : ℕ → ℕ → Uptime
  hours : ℕ → ℕ → ℕ → Uptime
  days : ℕ → ℕ → ℕ → ℕ → Uptime

-- Of a duration in whole seconds.
unfoldable pub uptime_of : ℕ → Uptime
uptime_of s =
    if ltb s 60
    then seconds s
    else if ltb s 3600
    then minutes (s / 60) (s % 60)
    else if ltb (s / 3600) 24
    then hours (s / 3600) (s / 60 % 60) (s % 60)
    else days (s / 3600 / 24) (s / 3600 % 24) (s / 60 % 60) (s % 60)

-- `formatUptime` of the time since the start, in nanoseconds, which is not before it.
unfoldable pub format_uptime : ℕ → ℕ → Uptime
unfolding uptime_of
format_uptime start now = uptime_of ((now - start) / 1000000000)

-- What such a text says: that many seconds, with each number below the next larger unit, and the largest
-- unit not zero.
abbrev pub Says : Uptime → ℕ → Type 0
Says (seconds s) n = (s ≡ n) × (s < 60)
Says (minutes m s) n = (m * 60 + s ≡ n) × (s < 60) × (m < 60) × (0 < m)
Says (hours h m s) n = (h * 3600 + m * 60 + s ≡ n) × (s < 60) × (m < 60) × (h < 24) × (0 < h)
Says (days d h m s) n =
    (d * 86400 + h * 3600 + m * 60 + s ≡ n) × (s < 60) × (m < 60) × (h < 24) × (0 < d)

uptime_of-Says : (s : ℕ) → Says (uptime_of s) s
unfolding uptime_of
uptime_of-Says n =
    if_elim (λ (u : Uptime). Says u n) (ltb n 60) _ _ (λ a. ground (arith, a))
      λ a.
        if_elim (λ (u : Uptime). Says u n) (ltb n 3600) _ _ (λ b. ground (arith, a, b))
          λ b.
            if_elim (λ (u : Uptime). Says u n) (ltb (n / 3600) 24) _ _ (λ c. ground (arith, b, c))
              (λ c. ground (arith, b, c))

-- The uptime that is shown is the time since the start, to the second, and in the largest units.
pub format_uptime-Says :
    (start now : ℕ) → Says (format_uptime start now) ((now - start) / 1000000000)
unfolding format_uptime
format_uptime-Says start now = uptime_of-Says ((now - start) / 1000000000)
