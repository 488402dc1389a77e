-- ===== src/Controller/RateLimit/Window.antt =====
-- What isRateLimited_ answers to the requests of one address within a window.
use kingdom.Base.{
  ℕ, suc, ◌+◌, ◌-◌, ◌≡◌, ◌≤◌, ◌<◌, refl, ap, Bytes, bytes_eq_refl, Bool, some, List, [], ◌∷◌, arith,
  All, lookup, insert, lookup-insert, keep_if, value_or, ltb,
}
use kingdom.Server.{RateLimitEntry}
use kingdom.Controller.RateLimit.{
  window, stale_entry_ttl, RateMap, new_entry, drop_stale, count_request, is_rate_limited,
}

-- The answers to requests of one address at the times of a list, and the map behind them.
unfoldable pub answers : ℕ → Bytes → List ℕ → RateMap → List Bool
answers max ip [] entries = []
answers max ip (t ∷ ts) entries =
    (is_rate_limited max t ip entries).0 ∷ answers max ip ts (is_rate_limited max t ip entries).1

-- Whether each of n requests is limited, when `count` were counted before.
unfoldable pub limited_after : ℕ → ℕ → List ℕ → List Bool
limited_after max count [] = []
limited_after max count (t ∷ ts) = ltb max (suc count) ∷ limited_after max (suc count) ts

-- An entry that is not stale stays.
lookup-drop_stale :
    (now : ℕ) (ip : Bytes) (e : RateLimitEntry) (entries : RateMap)
    → now - e.window_start ≤ stale_entry_ttl
    → lookup ip entries ≡ some e
    → lookup ip (drop_stale now entries) ≡ some e
unfolding lookup drop_stale keep_if
lookup-drop_stale now ip e [] h found = ground arith
lookup-drop_stale now ip e (x ∷ entries) h found =
    ground (arith, lookup-drop_stale now ip e entries h)

abbrev pub entry_at : ℕ → ℕ → RateLimitEntry
entry_at start count = record { count = count; window_start = start }

module _ (max start : ℕ) (ip : Bytes) where
  counted :
      (t count : ℕ) (entries : RateMap)
      → start ≤ t
      → t < start + window
      → lookup ip entries ≡ some (entry_at start count)
      → count_request t (value_or (lookup ip (drop_stale t entries)) new_entry)
        ≡ entry_at start (suc count)
  unfolding count_request
  counted t count entries from below found =
      rw (lookup-drop_stale t ip (entry_at start count) entries (omega (arith, below)) found)
        (ground arith)

  -- The window of an address is open with `count` requests: of the requests of that address up to
  -- its end, the n-th is limited exactly if `count + n` exceeds the maximum.
  pub answers-limited_after :
      (ts : List ℕ) (count : ℕ) (entries : RateMap)
      → All (λ t. (start ≤ t) × (t < start + window)) ts
      → lookup ip entries ≡ some (entry_at start count)
      → answers max ip ts entries ≡ limited_after max count ts
  unfolding answers limited_after is_rate_limited
  answers-limited_after [] count entries h found = refl
  answers-limited_after (t ∷ ts) count entries h found =
      rw (counted t count entries h.0.0 h.0.1 found) (
        ap (λ (rest : List Bool). ltb max (suc count) ∷ rest)
          (answers-limited_after ts (suc count) _ h.1 (again t count entries)))
    where
      again :
          (t count : ℕ) (entries : RateMap)
          → lookup ip (insert ip (entry_at start (suc count)) (drop_stale t entries))
            ≡ some (entry_at start (suc count))
      again t count entries = ground (
        arith,
        lookup-insert ip ip (entry_at start (suc count)) (drop_stale t entries),
        bytes_eq_refl ip,
      )
