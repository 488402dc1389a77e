-- ===== src/Controller/RateLimit.antt =====
-- isRateLimited_: Controller.cc lines 199-221. Times are nanoseconds of the steady clock.
pub mod Renewal
pub mod Window
use kingdom.Base.{
  ℕ, suc, ◌-◌, Bytes, Bool, not, Option, none, some, List, [], ◌∷◌, keep_if, lookup, insert, ltb,
  leb, value_or, if◌then◌else◌,
}
use kingdom.Server.{RateLimitEntry}

abbrev pub window : ℕ
window = 60_000_000_000

abbrev pub stale_entry_ttl : ℕ
stale_entry_ttl = 300_000_000_000

abbrev pub RateMap : Type 0
RateMap = List (Bytes × RateLimitEntry)

abbrev is_fresh : ℕ → Bytes × RateLimitEntry → Bool
is_fresh now entry = not (ltb stale_entry_ttl (now - entry.1.window_start))

unfoldable pub drop_stale : ℕ → RateMap → RateMap
drop_stale now entries = keep_if (is_fresh now) entries

abbrev pub new_entry : RateLimitEntry
new_entry = record { count = 0; window_start = 0 }

-- The entry after the reset of its window and the increment.
unfoldable pub count_request : ℕ → RateLimitEntry → RateLimitEntry
count_request now entry =
    if leb window (now - entry.window_start)
    then record { count = 1; window_start = now }
    else record entry { count = suc entry.count }

unfoldable pub is_rate_limited : ℕ → ℕ → Bytes → RateMap → Bool × RateMap
unfolding drop_stale count_request
is_rate_limited max_requests now ip_addr entries =
    let live : RateMap = drop_stale now entries in
    let entry : RateLimitEntry = count_request now (value_or (lookup ip_addr live) new_entry) in
    (ltb max_requests entry.count, insert ip_addr entry live)
