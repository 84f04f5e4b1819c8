-- ===== src/Tests/Leases.antt =====
-- The activity limiter and the leases of two sessions.
use bosun.Prelude.{
  ℕ, ◌+◌, ◌≤◌, ◌≡◌, refl, arith, eq_iff, true, false, List, none, some, [], ◌∷◌, ◌==◌, str_eq,
  if◌then◌else◌,
}
use bosun.Prelude.Dict.{Dict, lookup}
use bosun.Backend.Terminal.{ActivityLimiter, begin_mark, end_mark, acquire, release}
use bosun.Backend.Terminal.Activity.{Section, begins, ends, run_sections, begin_mark-after}
use bosun.Backend.Terminal.Lease.{release-acquire}

abbrev quiet : ActivityLimiter
quiet = record { interval = 10; states = [] }

abbrev during : List Section
during = begins "b" 8 ∷ ends "b" 8 true ∷ begins "a" 8 ∷ []

begin_mark-after_example :
    let l' = run_sections during (begin_mark "a" 7 quiet).0 in
    ((later : ℕ) → (begin_mark "a" later l').1 ≡ false)
    × ((between : List Section) (later : ℕ)
        → (begin_mark "a" later (run_sections between (end_mark "a" 7 true l'))).1 ≡ true
        → 7 + 10 ≤ later)
unfolding begin_mark lookup
begin_mark-after_example =
    begin_mark-after "a" 7 during quiet (omega arith) refl
      ((λ same. ground (arith, (eq_iff "b" "a").1 same)), tt)

abbrev leases : Dict ℕ
leases = ("a", 1) ∷ ("b", 2) ∷ []

-- Client 1 was replaced by client 3: its release leaves the lease.
release-acquire_example :
    lookup "a" (release "a" 1 (acquire "a" 3 leases).0)
    ≡ (if str_eq "a" "a" then if 3 == 1 then none else some 3 else lookup "a" leases)
release-acquire_example = release-acquire "a" "a" 3 1 leases
