-- ===== src/Backend/Terminal/Activity.antt =====
-- How far apart the updates of one session are, over any interleaving of the sections.
use bosun.Prelude.{
  str_eq_ne, ℕ, ◌+◌, ◌≤◌, ◌<◌, ◌≡◌, ◌≢◌, ◌⊎◌, refl, subst, ◌∙◌, String, Bool, true, false, not,
  ◌&&◌, ◌||◌, List, [], ◌∷◌, arith, eq_iff, ltb, ◌==◌, str_eq, if◌then◌else◌, Bool-cases, inl, inr,
}
use bosun.Prelude.Dict.{insert, lookup-insert}
use bosun.Backend.Terminal.{ActivityState, ActivityLimiter, state_of, begin_mark, end_mark}

-- The two sections of any call.
pub data Section : Type 0 where
  begins : String → ℕ → Section
  ends : String → ℕ → Bool → Section

abbrev pub run_section : Section → ActivityLimiter → ActivityLimiter
run_section (begins session at) l = (begin_mark session at l).0
run_section (ends session at succeeded) l = end_mark session at succeeded l

abbrev pub run_sections : List Section → ActivityLimiter → ActivityLimiter
run_sections [] l = l
run_sections (x ∷ xs) l = run_sections xs (run_section x l)

state_of-insert :
    (session other : String) (v : ActivityState) (l : ActivityLimiter)
    → state_of session (record l { states = insert other v l.states })
      ≡ (if str_eq other session then v else state_of session l)
state_of-insert session other v l = elim (Bool-cases (str_eq other session)) [
  | inl e ↦ rw (lookup-insert other session v l.states, e) refl
  | inr e ↦ rw (lookup-insert other session v l.states, e) refl
]

-- A write that keeps or raises the last update of one session.
last-insert-le :
    (session other : String) (v : ActivityState) (l : ActivityLimiter)
    → (state_of other l).last ≤ v.last
    → (state_of session l).last
      ≤ (state_of session (record l { states = insert other v l.states })).last
last-insert-le session other v l h = elim (Bool-cases (str_eq other session)) [
  | inl e ↦
      rw (lookup-insert other session v l.states, e)
        (subst (λ k. (state_of k l).last ≤ v.last) ((eq_iff other session).0 e) h)
  | inr e ↦ rw (lookup-insert other session v l.states, e) (omega arith)
]

begin_mark-last-le :
    (session other : String) (at : ℕ) (l : ActivityLimiter)
    → ((state_of session l).last ≤ (state_of session (begin_mark other at l).0).last)
      × ((begin_mark other at l).0.interval ≡ l.interval)
unfolding begin_mark
begin_mark-last-le session other at l =
    let state = state_of other l in
    elim (Bool-cases
      (state.active || (not (state.last == 0) && ltb at (state.last + l.interval)))) [
        | inl e ↦ rw (e, begin_mark) (omega arith, refl)
        | inr e ↦
            rw (e, begin_mark)
              (
                last-insert-le session other (record { last = state.last; active = true }) l
                    (omega arith),
                refl,
              )
      ]

-- The last update of a session only moves forward, and the interval stays.
run_section-last-le :
    (session : String) (x : Section) (l : ActivityLimiter)
    → ((state_of session l).last ≤ (state_of session (run_section x l)).last)
      × ((run_section x l).interval ≡ l.interval)
unfolding begin_mark end_mark
run_section-last-le session (begins other at) l = begin_mark-last-le session other at l
run_section-last-le session (ends other at succeeded) l =
    let state = state_of other l in
    let last = if succeeded && ltb state.last at then at else state.last in
    (last-insert-le session other (record { last = last; active = false }) l (ground arith), refl)

run_sections-last-le :
    (session : String) (xs : List Section) (l : ActivityLimiter)
    → ((state_of session l).last ≤ (state_of session (run_sections xs l)).last)
      × ((run_sections xs l).interval ≡ l.interval)
run_sections-last-le session [] l = (omega arith, refl)
run_sections-last-le session (x ∷ xs) l =
    let (step, same) = run_section-last-le session x l in
    let (rest, same') = run_sections-last-le session xs (run_section x l) in
    (omega (arith, step, rest), same' ∙ same)

end_mark-last :
    (session : String) (at : ℕ) (l : ActivityLimiter)
    → (at ≤ (state_of session (end_mark session at true l)).last)
      × ((end_mark session at true l).interval ≡ l.interval)
unfolding end_mark
end_mark-last session at l =
    let state = state_of session l in
    let last = if ltb state.last at then at else state.last in
    rw
      (
        lookup-insert session session (record { last = last; active = false }) l.states,
        (eq_iff session session).1 refl,
      )
      (ground arith, refl)

-- No section of the list ends an update of the session.
abbrev pub IsUnended : String → List Section → Type 0
IsUnended session [] = Unit
IsUnended session (begins other at ∷ xs) = IsUnended session xs
IsUnended session (ends other at succeeded ∷ xs) = (other ≢ session) × IsUnended session xs

-- An update of the session is under way.
abbrev IsActive : String → ActivityLimiter → Type 0
IsActive session l = (state_of session l).active ≡ true

insert-IsActive :
    (session other : String) (v : ActivityState) (l : ActivityLimiter)
    → (str_eq other session ≡ false) ⊎ (v.active ≡ true)
    → IsActive session l
    → IsActive session (record l { states = insert other v l.states })
insert-IsActive session other v l (inl e) h = rw (lookup-insert other session v l.states, e) h
insert-IsActive session other v l (inr a) h = elim (Bool-cases (str_eq other session)) [
  | inl e ↦ rw (lookup-insert other session v l.states, e) a
  | inr e ↦ rw (lookup-insert other session v l.states, e) h
]

begin_mark-IsActive :
    (session other : String) (at : ℕ) (l : ActivityLimiter)
    → IsActive session l
    → IsActive session (begin_mark other at l).0
unfolding begin_mark
begin_mark-IsActive session other at l h =
    let state = state_of other l in
    elim (Bool-cases
      (state.active || (not (state.last == 0) && ltb at (state.last + l.interval)))) [
        | inl e ↦ rw (e, begin_mark) h
        | inr e ↦
            rw (e, begin_mark)
              (insert-IsActive session other (record { last = state.last; active = true }) l
                (inr refl) h)
      ]

run_sections-IsActive :
    (session : String) (xs : List Section) (l : ActivityLimiter)
    → IsUnended session xs
    → IsActive session l
    → IsActive session (run_sections xs l)
unfolding end_mark
run_sections-IsActive session [] l u h = h
run_sections-IsActive session (begins other at ∷ xs) l u h =
    run_sections-IsActive session xs _ u (begin_mark-IsActive session other at l h)
run_sections-IsActive session (ends other at succeeded ∷ xs) l u h =
    run_sections-IsActive session xs _ u.1
      (insert-IsActive session other _ l (inl (str_eq_ne other session u.0)) h)

begin_mark-granted :
    (session : String) (at : ℕ) (l : ActivityLimiter)
    → (begin_mark session at l).1 ≡ true
    → IsActive session (begin_mark session at l).0
unfolding begin_mark
begin_mark-granted session at l h =
    let state = state_of session l in
    elim (Bool-cases
      (state.active || (not (state.last == 0) && ltb at (state.last + l.interval)))) [
        | inl e ↦ ground (arith, e, h)
        | inr e ↦
            rw
              (
                e,
                begin_mark,
                lookup-insert session session (record { last = state.last; active = true })
                    l.states,
                (eq_iff session session).1 refl,
              )
              refl
      ]

begin_mark-refused :
    (session : String) (at : ℕ) (l : ActivityLimiter)
    → IsActive session l
    → (begin_mark session at l).1 ≡ false
unfolding begin_mark
begin_mark-refused session at l h = rw (h, begin_mark) refl

after_success :
    (session : String) (at later : ℕ) (between : List Section) (l : ActivityLimiter)
    → (begin_mark session later (run_sections between (end_mark session at true l))).1 ≡ true
    → at + l.interval ≤ later ⊎ at ≡ 0
unfolding begin_mark
after_success session at later between l h =
    let l' = end_mark session at true l in
    let (kept, same) = run_sections-last-le session between l' in
    let ended = end_mark-last session at l in
    elim (Bool-cases (at == 0)) [
      | inl z ↦ inr (ground (arith, z))
      | inr z ↦ inl (ground (arith, z, kept, same, ended, h))
    ]

-- Once an update of a session at a time that is not zero has begun, whatever sections of whatever
-- sessions run: none of the session begins before it has ended, and if it ends with success, the next
-- one begins an interval later at the earliest.
pub begin_mark-after :
    (session : String) (at : ℕ) (during : List Section) (l : ActivityLimiter)
    → 0 < at
    → (begin_mark session at l).1 ≡ true
    → IsUnended session during
    → let l' = run_sections during (begin_mark session at l).0 in
      ((later : ℕ) → (begin_mark session later l').1 ≡ false)
      × ((between : List Section) (later : ℕ)
          → (begin_mark session later (run_sections between (end_mark session at true l'))).1 ≡ true
          → at + l.interval ≤ later)
begin_mark-after session at during l positive granted unended =
    let l1 = (begin_mark session at l).0 in
    let l' = run_sections during l1 in
    let (_, begun) = begin_mark-last-le session session at l in
    let (_, ran) = run_sections-last-le session during l1 in
    (
      λ later. begin_mark-refused session later l' (
          run_sections-IsActive session during l1 unended
            (begin_mark-granted session at l granted)),
      λ between later h. elim (after_success session at later between l' h) [
        | inl le ↦ omega (arith, le, begun, ran)
        | inr z ↦ omega (arith, z, positive)
      ],
    )
