-- ===== src/Backend/RateLimit.antt =====
-- backend/internal/ratelimit/limiter.go: the fixed-window limiter with a bounded number of keys. The
-- mutex makes each call one step. An instant is a number of nanoseconds.
pub mod Bounds
use bosun.Prelude.{
  ℕ, ◌+◌, String, Bool, true, false, Option, none, some, [], ◌∷◌, leb, if◌then◌else◌, length,
}
use bosun.Prelude.Dict.{Dict, lookup, insert}

pub record Window : Type 0 where
  pub count : ℕ
  pub reset_at : ℕ

pub record Limiter : Type 0 where
  pub limit : ℕ
  pub window : ℕ
  pub capacity : ℕ
  pub entries : Dict Window

abbrev pub new : ℕ → ℕ → ℕ → Limiter
new limit window capacity = record {
  limit = limit;
  window = window;
  capacity = capacity;
  entries = [];
}

-- `evictExpired` on the map.
unfoldable pub evict_expired : ℕ → Dict Window → Dict Window
evict_expired now [] = []
evict_expired now ((key, entry) ∷ m) =
    if leb entry.reset_at now then evict_expired now m else (key, entry) ∷ evict_expired now m

abbrev pub open_window : String → ℕ → Limiter → Limiter
open_window key now l = record l {
  entries = insert key (record { count = 1; reset_at = now + l.window }) l.entries;
}

-- A key with an entry.
unfoldable pub allow_entry : String → ℕ → Window → Limiter → Limiter × Bool
allow_entry key now entry l =
    if leb entry.reset_at now
    then (open_window key now l, true)
    else if leb l.limit entry.count
    then (l, false)
    else (
      record l {
        entries =
            insert key (record { count = entry.count + 1; reset_at = entry.reset_at }) l.entries;
      },
      true,
    )

-- A key without an entry.
unfoldable pub allow_new : String → ℕ → Limiter → Limiter × Bool
allow_new key now l =
    let l' = record l { entries = evict_expired now l.entries } in
    if leb l.capacity (length l.entries)
    then if leb l.capacity (length l'.entries) then (l', false) else (open_window key now l', true)
    else (open_window key now l, true)

abbrev pub allow_found : String → ℕ → Option Window → Limiter → Limiter × Bool
allow_found key now none l = allow_new key now l
allow_found key now (some entry) l = allow_entry key now entry l

unfoldable pub allow : String → ℕ → Limiter → Limiter × Bool
unfolding allow_entry allow_new
allow key now l = allow_found key now (lookup key l.entries) l

unfoldable pub cleanup : ℕ → Limiter → Limiter
unfolding evict_expired
cleanup now l = record l { entries = evict_expired now l.entries }
