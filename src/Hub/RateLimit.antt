-- ===== src/Hub/RateLimit.antt =====
-- internal/hub/adapter/primary/httpapi/ratelimit.go: the limiter of login attempts.
-- A time of the library `time` is the number of its nanoseconds, and a duration one too. `allow`
-- holds the mutex for its whole body, so it is one step. An entry is a pointer that only the map
-- holds, so a change of its count is a change of the map.
pub mod Counter
pub mod Window
use constellate.Common.{
  ℕ, ◌+◌, ◌-◌, ◌%◌, ◌^◌, ◌==◌, Bool, true, false, ltb, if◌then◌else◌, Option, none, some, List, [],
  ◌∷◌, Word, add_int, le_int,
}
use constellate.Maps.{Text, Map, find, put}

pub record Entry : Type 0 where
  pub count : Word
  pub window_end : ℕ

pub record RateLimiter : Type 0 where
  pub max : Word
  pub window : ℕ
  pub entries : Map Entry
  pub call_count : Word
  pub evict_interval : Word

-- `newRateLimiter`
unfoldable pub new_rate_limiter : Word → ℕ → RateLimiter
new_rate_limiter max window = record {
  max = max;
  window = window;
  entries = [];
  call_count = 0;
  evict_interval = 100;
}

-- `now.After(e.windowEnd)`
abbrev pub is_over : ℕ → Entry → Bool
is_over now e = ltb e.window_end now

-- `evict`
unfoldable pub evict : ℕ → Map Entry → Map Entry
evict now [] = []
evict now ((k, e) ∷ m) = if is_over now e then evict now m else (k, e) ∷ evict now m

-- `n % d == 0` on Go's `int`, for a positive `d`: the sign of `n` is the remainder's.
unfoldable pub is_multiple : Word → Word → Bool
is_multiple n d = if ltb n (2 ^ 63) then n % d == 0 else (2 ^ 64 - n) % d == 0

-- `l.callCount++`, and the sweep that every `evictInterval` calls make.
unfoldable pub counted_call : ℕ → RateLimiter → RateLimiter
counted_call now l =
    let calls = add_int l.call_count 1 in
    if is_multiple calls l.evict_interval
    then record l { call_count = calls; entries = evict now l.entries }
    else record l { call_count = calls }

abbrev pub fresh_entry : RateLimiter → ℕ → Entry
fresh_entry l now = record { count = 1; window_end = now + l.window }

-- What `allow` answers: nothing if the request is permitted, else the time until it may be again.
abbrev pub Answer : Type 0
Answer = Option ℕ

-- `allow` behind the sweep, for what the map holds under the key.
unfoldable pub allow_entry : Text → ℕ → RateLimiter → Option Entry → Answer × RateLimiter
allow_entry key now l none = (none, record l { entries = put key (fresh_entry l now) l.entries })
allow_entry key now l (some e) =
    if is_over now e
    then (none, record l { entries = put key (fresh_entry l now) l.entries })
    else (if le_int l.max e.count then (some (e.window_end - now), l) else (
      none,
      record l { entries = put key (record e { count = add_int e.count 1 }) l.entries },
    ))

unfoldable pub allow : Text → ℕ → RateLimiter → Answer × RateLimiter
allow key now l = let m = counted_call now l in allow_entry key now m (find key m.entries)
