-- ===== src/Backend/Terminal/Lease.antt =====
-- A replaced client cannot release the lease of the one that replaced it.
use bosun.Prelude.{
  ℕ, ◌≡◌, refl, String, none, some, arith, eq_iff, ◌==◌, str_eq, if◌then◌else◌, Bool-cases, inl,
  inr,
}
use bosun.Prelude.Dict.{Dict, lookup, insert, lookup-insert, lookup-delete}
use bosun.Backend.Terminal.{acquire, release}

-- After a client took the lease of a session: its own release ends the lease, that of another client
-- changes nothing, and in both cases the leases of other sessions are those of before.
pub release-acquire :
    (session other : String) (next client : ℕ) (clients : Dict ℕ)
    → lookup other (release session client (acquire session next clients).0) ≡ (
        if str_eq session other
        then if next == client then none else some next
        else lookup other clients)
unfolding acquire release
release-acquire session other next client clients =
    let taken = lookup-insert session session next clients in
    let seen = lookup-insert session other next clients in
    let dropped = lookup-delete session other (insert session next clients) in
    elim (Bool-cases (next == client)) [
      | inl e ↦ rw (taken, (eq_iff session session).1 refl, e) (ground (arith, seen, dropped))
      | inr e ↦ rw (taken, (eq_iff session session).1 refl, e) seen
    ]
