-- ===== src/Tests/Limits.antt =====
-- The rate limiter with one attempt in each window of ten, and room for one key.
use bosun.Prelude.{◌≤◌, ◌≡◌, refl, inr, arith, [], ◌∷◌, true, false}
use bosun.Prelude.Dict.{lookup}
use bosun.Backend.RateLimit.{Limiter, Window, evict_expired, allow_new, allow}
use bosun.Backend.RateLimit.Bounds.{IsBounded, allow-IsBounded, allowed_of, allowed_of-le}

abbrev last_window : Window
last_window = record { count = 1; reset_at = 5 }

abbrev small : Limiter
small = record { limit = 1; window = 10; capacity = 1; entries = ("a", last_window) ∷ [] }

-- A new key takes the place of one whose window is over, and is refused before that.
allow_evicts : (allow "b" 5 small).1 ≡ true
unfolding allow allow_new evict_expired lookup
allow_evicts = refl

allow_refuses : (allow "b" 4 small).1 ≡ false
unfolding allow allow_new evict_expired lookup
allow_refuses = refl

allow-IsBounded_example : IsBounded (allow "b" 5 small).0
allow-IsBounded_example =
    allow-IsBounded "b" 5 small (record { keys = omega arith; counts = (omega arith, tt) })

allowed_of-le_example : allowed_of "a" (("a", 7) ∷ ("b", 8) ∷ ("a", 9) ∷ []) small ≤ 1
unfolding lookup
allowed_of-le_example =
    allowed_of-le "a" 7 (("b", 8) ∷ ("a", 9) ∷ []) small (omega arith) (omega arith)
      ((omega arith, omega arith), ((omega arith, omega arith), tt))
      (inr (last_window, refl, omega arith))
