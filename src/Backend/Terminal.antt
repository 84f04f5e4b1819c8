-- ===== src/Backend/Terminal.antt =====
-- backend/internal/terminal/activity.go and lease.go: the limiter of activity updates and the
-- registry of terminal clients. Each locked section is one step. An instant is a number of
-- nanoseconds, and 0 is the zero time; a client is its identity.
pub mod Activity
pub mod Lease
use bosun.Prelude.{
  ℕ, ◌+◌, String, Bool, true, false, not, ◌&&◌, ◌||◌, Option, none, some, ltb, ◌==◌, if◌then◌else◌,
}
use bosun.Prelude.Dict.{Dict, lookup, insert, delete}

pub record ActivityState : Type 0 where
  pub last : ℕ
  pub active : Bool

pub record ActivityLimiter : Type 0 where
  pub interval : ℕ
  pub states : Dict ActivityState

abbrev pub state_or_zero : Option ActivityState → ActivityState
state_or_zero none = record { last = 0; active = false }
state_or_zero (some s) = s

abbrev pub state_of : String → ActivityLimiter → ActivityState
state_of session l = state_or_zero (lookup session l.states)

-- The first section of `mark`: whether the update is made.
unfoldable pub begin_mark : String → ℕ → ActivityLimiter → ActivityLimiter × Bool
begin_mark session at l =
    let state = state_of session l in
    if state.active || (not (state.last == 0) && ltb at (state.last + l.interval))
    then (l, false)
    else (
      record l { states = insert session (record { last = state.last; active = true }) l.states },
      true,
    )

-- The second section, after the update, which succeeded or not.
unfoldable pub end_mark : String → ℕ → Bool → ActivityLimiter → ActivityLimiter
end_mark session at succeeded l =
    let state = state_of session l in
    let last = if succeeded && ltb state.last at then at else state.last in
    record l { states = insert session (record { last = last; active = false }) l.states }

-- `acquire`: the registry with the new client, and the client that has to stop.
unfoldable pub acquire : String → ℕ → Dict ℕ → Dict ℕ × Option ℕ
acquire session next clients = (insert session next clients, lookup session clients)

abbrev pub holds : Option ℕ → ℕ → Bool
holds none client = false
holds (some holder) client = holder == client

-- The function that `acquire` returns.
unfoldable pub release : String → ℕ → Dict ℕ → Dict ℕ
release session client clients =
    if holds (lookup session clients) client then delete session clients else clients
