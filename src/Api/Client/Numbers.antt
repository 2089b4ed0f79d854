-- ===== src/Api/Client/Numbers.antt =====
-- swift-lib/swiftapiclient.cpp: the numbers that `getNextUuid` gives, against the clock.
use swift_bot.Prelude.{ℕ, ◌+◌, ◌^◌, ◌≤◌, ◌<◌, ◌≡◌, arith}
use swift_bot.Api.Client.{get_next_uuid}

-- Milliseconds that the clock can show: it is past 300, and below the last number of 64 bits.
abbrev pub IsTime : ℕ → Type 0
IsTime now = (300 ≤ now) × (now + 1 < 2 ^ 64)

-- At a clock that is past 300 and below the last number, from a counter of 64 bits, the next number is at
-- most one ahead of the clock and less than 300 behind it, and the counter is set to it.
pub get_next_uuid_bounds :
    (now counter : ℕ)
    → IsTime now
    → counter < 2 ^ 64
    → ((get_next_uuid now counter).0 ≤ now + 1)
      × (now < (get_next_uuid now counter).0 + 300)
      × ((get_next_uuid now counter).1 ≡ (get_next_uuid now counter).0)
unfolding get_next_uuid
get_next_uuid_bounds now counter (late, fits) small = ground arith

-- Where the clock has reached the counter, the number is above all that were given before.
pub get_next_uuid_grows :
    (now counter : ℕ) → IsTime now → counter ≤ now → counter < (get_next_uuid now counter).0
unfolding get_next_uuid
get_next_uuid_grows now counter (late, fits) h = ground arith

pub get_next_uuid_ahead : (now : ℕ) → IsTime now → get_next_uuid now (now + 1) ≡ (now + 1, now + 1)
unfolding get_next_uuid
get_next_uuid_ahead now (late, fits) = ground arith

pub get_next_uuid_paused :
    (now counter : ℕ)
    → IsTime now
    → counter + 300 < now
    → get_next_uuid now counter ≡ (now + 1, now + 1)
unfolding get_next_uuid
get_next_uuid_paused now counter (late, fits) h = ground arith
