-- ===== src/Controller/RateLimit/Renewal.antt =====
-- What isRateLimited_ does to the entries of other addresses, and to a window that is over.
use kingdom.Base.{
  ℕ, ◌+◌, ◌-◌, ◌≡◌, ◌≤◌, refl, Bytes, bytes_eq, bytes_eq_iff, false, Option, none, some, [], ◌∷◌,
  arith, lookup, lookup-insert, keep_if, value_or, leb, if◌then◌else◌,
}
use kingdom.Server.{RateLimitEntry}
use kingdom.Controller.RateLimit.{RateMap, new_entry, drop_stale, count_request, is_rate_limited}

lookup-drop_stale-none :
    (now : ℕ) (ip : Bytes) (entries : RateMap)
    → lookup ip entries ≡ none
    → lookup ip (drop_stale now entries) ≡ none
unfolding lookup drop_stale keep_if
lookup-drop_stale-none now ip [] h = ground arith
lookup-drop_stale-none now ip (x ∷ rest) h = ground (arith, lookup-drop_stale-none now ip rest)

-- One entry for each address, as in the map.
abbrev pub IsMap : RateMap → Type 0
IsMap [] = Unit {0}
IsMap ((ip, e) ∷ entries) = (lookup ip entries ≡ none) × IsMap entries

-- What is left of an entry after five minutes: nothing.
abbrev pub left_of : ℕ → Option RateLimitEntry → Option RateLimitEntry
left_of now none = none
left_of now (some e) = if leb (now - e.window_start) 300_000_000_000 then some e else none

kept_entry :
    (now : ℕ) (ip : Bytes) (entries : RateMap)
    → IsMap entries
    → lookup ip (drop_stale now entries) ≡ left_of now (lookup ip entries)
unfolding lookup drop_stale keep_if
kept_entry now ip [] h = refl
kept_entry now ip ((k, e) ∷ entries) h = ground (
  arith,
  kept_entry now ip entries h.1,
  lookup-drop_stale-none now ip entries,
  bytes_eq_iff k ip,
  h.0,
)

-- A request of one address leaves another address its entry for five minutes, and drops it then.
pub lookup-is_rate_limited :
    (max now : ℕ) (ip other : Bytes) (entries : RateMap)
    → IsMap entries
    → bytes_eq ip other ≡ false
    → lookup other (is_rate_limited max now ip entries).1 ≡ left_of now (lookup other entries)
unfolding is_rate_limited
lookup-is_rate_limited max now ip other entries one_each h = ground (
  arith,
  lookup-insert ip other
      (count_request now (value_or (lookup ip (drop_stale now entries)) new_entry))
      (drop_stale now entries),
  h,
  kept_entry now other entries one_each,
)

-- The address has no entry, or its window ended a minute after its start; the clock has run for a
-- minute.
abbrev pub IsOver : ℕ → Option RateLimitEntry → Type 0
IsOver now none = 60_000_000_000 ≤ now
IsOver now (some e) = e.window_start + 60_000_000_000 ≤ now
