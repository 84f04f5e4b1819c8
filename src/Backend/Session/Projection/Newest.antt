-- ===== src/Backend/Session/Projection/Newest.antt =====
-- The rows of the sessions after a watch: where their status is from, and that none is behind.
use bosun.Prelude.{
  ℕ, ◌≤◌, ◌≡◌, refl, sym, ◌⊎◌, inl, inr, arith, eq_iff, String, Bool, true, false, ◌&&◌, ◌||◌,
  Option, none, some, List, [], ◌∷◌, str_eq, if◌then◌else◌, map, any, str_eq_of_eq,
}
use bosun.Backend.Auth.{Fault, works, refused, lost}
use bosun.Backend.Session.{Cr}
use bosun.Backend.Session.Service.{Event}
use bosun.Backend.Session.Projection.{
  Row, Tables, is_older, set_status, set_cleaned, update_row, commit, no_rows, update_with_event,
  project_status, mark_cleanup_complete, Sources, WatchEvent, changed, deleted, succeeded,
  projection_of, project_event, project_parsed, project, clean_event, clean_parsed,
  cleanup_complete, handle, continue, run_watch,
}

-- Row by row.
abbrev pub Pairs : (Row → Row → Type 0) → List Row → List Row → Type 0
Pairs R [] [] = Unit
Pairs R (x ∷ xs) (y ∷ ys) = R x y × Pairs R xs ys
Pairs R _ _ = ⊥

Pairs-same : (R : Row → Row → Type 0) (xs : List Row) → ((x : Row) → R x x) → Pairs R xs xs
Pairs-same R [] h = tt
Pairs-same R (x ∷ xs) h = (h x, Pairs-same R xs h)

Pairs-map :
    (R : Row → Row → Type 0) (f : Row → Row) (xs : List Row)
    → ((x : Row) → R x (f x))
    → Pairs R xs (map f xs)
Pairs-map R f [] h = tt
Pairs-map R f (x ∷ xs) h = (h x, Pairs-map R f xs h)

-- Rows that a test does not hold for.
Pairs-none :
    (R : Row → Row → Type 0) (test : Row → Bool) (xs : List Row)
    → any test xs ≡ false
    → ((x : Row) → test x ≡ false → R x x)
    → Pairs R xs xs
Pairs-none R test [] e h = tt
Pairs-none R test (x ∷ xs) e h = by_head (test x) refl e (λ e'. Pairs-none R test xs e' h)
  where
    by_head :
        (b : Bool)
        → test x ≡ b
        → b || any test xs ≡ false
        → (any test xs ≡ false → Pairs R xs xs)
        → Pairs R (x ∷ xs) (x ∷ xs)
    by_head true k e' rest = cc
    by_head false k e' rest = (h x k, rest e')

Pairs-trans :
    (R S T : Row → Row → Type 0) (xs ys zs : List Row)
    → ((x y z : Row) → R x y → S y z → T x z)
    → Pairs R xs ys
    → Pairs S ys zs
    → Pairs T xs zs
Pairs-trans R S T [] [] [] h p q = tt
Pairs-trans R S T (x ∷ xs) (y ∷ ys) (z ∷ zs) h p q =
    (h x y z p.0 q.0, Pairs-trans R S T xs ys zs h p.1 q.1)
Pairs-trans R S T [] (y ∷ ys) zs h p q = elim p [ ]
Pairs-trans R S T (x ∷ xs) [] zs h p q = elim p [ ]
Pairs-trans R S T [] [] (z ∷ zs) h p q = elim q [ ]
Pairs-trans R S T (x ∷ xs) (y ∷ ys) [] h p q = elim q [ ]

update_with_event-Pairs :
    (R : Bool → Row → Row → Type 0) (fault : Fault) (test : Row → Bool) (set : Row → Row)
    (event : Event) (t : Tables)
    → ((b : Bool) (x : Row) → R b x (update_row test set x))
    → ((x : Row) → test x ≡ false → R true x x)
    → ((x : Row) → R false x x)
    → Pairs
        (R (succeeded (update_with_event fault test set event t)).1)
        t.rows
        (succeeded (update_with_event fault test set event t)).0.rows
unfolding update_with_event
update_with_event-Pairs R fault test set event t done left kept =
    by_case fault (any test t.rows) refl
  where
    by_case :
        (f : Fault) (b : Bool)
        → any test t.rows ≡ b
        → let u =
            if b
            then commit f t
                (record { rows = map (update_row test set) t.rows; events = event ∷ t.events })
            else no_rows f t in
          Pairs (R (succeeded u).1) t.rows (succeeded u).0.rows
    by_case works true e = Pairs-map (R true) _ t.rows (done true)
    by_case refused true e = Pairs-same (R false) t.rows kept
    by_case lost true e = Pairs-map (R false) _ t.rows (done false)
    by_case works false e = Pairs-none (R true) test t.rows e left
    by_case refused false e = Pairs-same (R false) t.rows kept
    by_case lost false e = Pairs-same (R false) t.rows kept

older-same : (s t : String) (b : Bool) → str_eq s t && b ≡ true → s ≡ t
older-same s t b e = by_test (str_eq s t) refl e
  where
    by_test : (c : Bool) → str_eq s t ≡ c → c && b ≡ true → s ≡ t
    by_test true k h = (eq_iff s t).0 k
    by_test false k h = cc

-- The part of a row that a projection alone writes.
abbrev pub SameStatus : Row → Row → Type 0
SameStatus r r' =
    (r'.session.phase ≡ r.session.phase)
    × (r'.session.conditions ≡ r.session.conditions)
    × (r'.session.last_active_at ≡ r.session.last_active_at)
    × (r'.session.cr_resource_version ≡ r.session.cr_resource_version)

module _ (sources : Sources) where
  open sources use {parse_uuid}

  -- The object is the row's session's, and the row says its status.
  abbrev pub Says : Cr → Row → Type 0
  Says cr r =
      (parse_uuid cr.session_id ≡ some r.session.id)
      × (r.session.phase ≡ cr.phase)
      × (r.session.conditions ≡ cr.conditions)
      × (r.session.last_active_at ≡ cr.last_active_at)
      × (r.session.cr_resource_version ≡ cr.resource_version)

  abbrev pub SaysOf : WatchEvent → Row → Type 0
  SaysOf (changed cr) r = Says cr r
  SaysOf (deleted cr) r = ⊥

  abbrev pub SaysAny : List (Fault × WatchEvent) → Row → Type 0
  SaysAny [] r = ⊥
  SaysAny ((fault, event) ∷ events) r = SaysOf event r ⊎ SaysAny events r

  -- The row is not behind the object of the event.
  abbrev pub IsPast : WatchEvent → Row → Type 0
  IsPast (changed cr) r =
      str_eq cr.phase "" ≡ false
      → parse_uuid cr.session_id ≡ some r.session.id
      → cr.resource_version ≤ r.session.cr_resource_version
  IsPast (deleted cr) r = Unit

  abbrev pub IsPastAll : List (Fault × WatchEvent) → Row → Type 0
  IsPastAll [] r = Unit
  IsPastAll ((fault, event) ∷ events) r = IsPast event r × IsPastAll events r

  -- What becomes of a row.
  abbrev pub Moves : List (Fault × WatchEvent) → Bool → Row → Row → Type 0
  Moves events ok r r' =
      (r'.session.id ≡ r.session.id)
      × (r.session.cr_resource_version ≤ r'.session.cr_resource_version)
      × (SameStatus r r' ⊎ SaysAny events r')
      × (ok ≡ true → IsPastAll events r')

  Moves-kept :
      (fault : Fault) (event : WatchEvent) (r : Row) → Moves ((fault, event) ∷ []) false r r
  Moves-kept fault event r = (refl, ground arith, inl (refl, refl, refl, refl), λ h. cc)

  -- A row that has nothing of the object to take over.
  Moves-left :
      (fault : Fault) (cr : Cr) (id : String) (time : ℕ)
      → parse_uuid cr.session_id ≡ some id
      → (r : Row) → is_older (projection_of sources id cr time) r ≡ false
      → Moves ((fault, changed cr) ∷ []) true r r
  Moves-left fault cr id time parsed r newer =
      (refl, ground arith, inl (refl, refl, refl, refl), λ _. ((λ _ same. past cc), tt))
    where
      past : id ≡ r.session.id → cr.resource_version ≤ r.session.cr_resource_version
      past same = ground (arith, newer, str_eq_of_eq r.session.id id (sym same))

  Moves-updated :
      (fault : Fault) (cr : Cr) (id : String) (time : ℕ)
      → parse_uuid cr.session_id ≡ some id
      → (b : Bool) (r : Row)
      → Moves ((fault, changed cr) ∷ []) b r (
          update_row
            (is_older (projection_of sources id cr time))
            (set_status (projection_of sources id cr time))
            r)
  Moves-updated fault cr id time parsed b r =
      by_test (is_older (projection_of sources id cr time) r) refl
    where
      by_test :
          (c : Bool)
          → is_older (projection_of sources id cr time) r ≡ c
          → Moves
              ((fault, changed cr) ∷ [])
              b
              r
              (if c then set_status (projection_of sources id cr time) r else r)
      by_test true e = (
        refl,
        ground (arith, e),
        inr (inl (rw (older-same r.session.id id _ e) parsed, refl, refl, refl, refl)),
        λ _. ((λ _ _. ground arith), tt),
      )
      by_test false e =
          let (i, le, st, past) = Moves-left fault cr id time parsed r e in
          (i, le, st, λ _. past refl)

  project-Moves :
      (fault : Fault) (cr : Cr) (t : Tables)
      → Pairs
          (Moves ((fault, changed cr) ∷ []) (project sources fault cr t).1)
          t.rows
          (project sources fault cr t).0.rows
  unfolding project project_status
  project-Moves fault cr t = by_phase (str_eq cr.phase "") refl
    where
      by_event :
          (id : String)
          → parse_uuid cr.session_id ≡ some id
          → (o : Option Event)
          → Pairs
              (Moves ((fault, changed cr) ∷ []) (project_event sources fault cr id o t).1)
              t.rows
              (project_event sources fault cr id o t).0.rows
      by_event id parsed none = Pairs-same _ t.rows (Moves-kept fault (changed cr))
      by_event id parsed (some event) =
          update_with_event-Pairs (λ b. Moves ((fault, changed cr) ∷ []) b) fault _ _ event t
            (Moves-updated fault cr id event.occurred_at parsed)
            (Moves-left fault cr id event.occurred_at parsed) (Moves-kept fault (changed cr))

      by_parsed :
          (o : Option String)
          → parse_uuid cr.session_id ≡ o
          → Pairs
              (Moves ((fault, changed cr) ∷ []) (project_parsed sources fault cr o t).1)
              t.rows
              (project_parsed sources fault cr o t).0.rows
      by_parsed none e =
          Pairs-same _ t.rows
            (λ r. (refl, ground arith, inl (refl, refl, refl, refl), λ _. ((λ _ same. cc), tt)))
      by_parsed (some id) e = by_event id e (sources.new_event id "session.phase_changed" cr)

      by_phase :
          (b : Bool)
          → str_eq cr.phase "" ≡ b
          → let u =
              if b
              then (t, true)
              else project_parsed sources fault cr (parse_uuid cr.session_id) t in
            Pairs (Moves ((fault, changed cr) ∷ []) u.1) t.rows u.0.rows
      by_phase true e =
          Pairs-same _ t.rows
            (λ r. (refl, ground arith, inl (refl, refl, refl, refl), λ _. ((λ k same. cc), tt)))
      by_phase false e = by_parsed (parse_uuid cr.session_id) refl

  Moves-cleaned :
      (fault : Fault) (cr : Cr) (test : Row → Bool) (time : ℕ) (b : Bool) (r : Row)
      → Moves ((fault, deleted cr) ∷ []) b r (update_row test (set_cleaned time) r)
  Moves-cleaned fault cr test time b r = by_test (test r)
    where
      by_test :
          (c : Bool) → Moves ((fault, deleted cr) ∷ []) b r (if c then set_cleaned time r else r)
      by_test true = (refl, ground arith, inl (refl, refl, refl, refl), λ _. (tt, tt))
      by_test false = (refl, ground arith, inl (refl, refl, refl, refl), λ _. (tt, tt))

  cleanup_complete-Moves :
      (fault : Fault) (cr : Cr) (t : Tables)
      → Pairs
          (Moves ((fault, deleted cr) ∷ []) (cleanup_complete sources fault cr t).1)
          t.rows
          (cleanup_complete sources fault cr t).0.rows
  unfolding cleanup_complete mark_cleanup_complete
  cleanup_complete-Moves fault cr t = by_parsed (parse_uuid cr.session_id)
    where
      left : (r : Row) → Moves ((fault, deleted cr) ∷ []) true r r
      left r = (refl, ground arith, inl (refl, refl, refl, refl), λ _. (tt, tt))

      by_event :
          (id : String) (o : Option Event)
          → Pairs
              (Moves ((fault, deleted cr) ∷ []) (clean_event sources fault id o t).1)
              t.rows
              (clean_event sources fault id o t).0.rows
      by_event id none = Pairs-same _ t.rows (Moves-kept fault (deleted cr))
      by_event id (some event) =
          update_with_event-Pairs (λ b. Moves ((fault, deleted cr) ∷ []) b) fault _ _ event t
            (Moves-cleaned fault cr _ _) (λ r e. left r) (Moves-kept fault (deleted cr))

      by_parsed :
          (o : Option String)
          → Pairs
              (Moves ((fault, deleted cr) ∷ []) (clean_parsed sources fault cr o t).1)
              t.rows
              (clean_parsed sources fault cr o t).0.rows
      by_parsed none = Pairs-same _ t.rows left
      by_parsed (some id) = by_event id (sources.new_event id "session.cleanup_completed" cr)

  handle-Moves :
      (fault : Fault) (event : WatchEvent) (t : Tables)
      → Pairs
          (Moves ((fault, event) ∷ []) (handle sources fault event t).1)
          t.rows
          (handle sources fault event t).0.rows
  handle-Moves fault (changed cr) t = project-Moves fault cr t
  handle-Moves fault (deleted cr) t = cleanup_complete-Moves fault cr t

  SaysOf-kept :
      (event : WatchEvent) (r r' : Row)
      → r'.session.id ≡ r.session.id
      → SameStatus r r'
      → SaysOf event r
      → SaysOf event r'
  SaysOf-kept (changed cr) r r' i same says = rw (i, same.0, same.1, same.2, same.3) says
  SaysOf-kept (deleted cr) r r' i same says = elim says [ ]

  IsPast-kept :
      (event : WatchEvent) (r r' : Row)
      → r'.session.id ≡ r.session.id
      → r.session.cr_resource_version ≤ r'.session.cr_resource_version
      → IsPast event r
      → IsPast event r'
  IsPast-kept (changed cr) r r' i le past = λ k same. ground (arith, past k (rw (sym i) same))
  IsPast-kept (deleted cr) r r' i le past = tt

  module _ (fault : Fault) (event : WatchEvent) (events : List (Fault × WatchEvent)) where
    Moves-stop :
        (r r' : Row)
        → Moves ((fault, event) ∷ []) false r r'
        → Moves ((fault, event) ∷ events) false r r'
    Moves-stop r r' (i, le, st, past) = (i, le, widen st, λ h. cc)
      where
        widen :
            SameStatus r r' ⊎ SaysAny ((fault, event) ∷ []) r'
            → SameStatus r r' ⊎ SaysAny ((fault, event) ∷ events) r'
        widen (inl same) = inl same
        widen (inr (inl says)) = inr (inl says)
        widen (inr (inr none_left)) = elim none_left [ ]

    Moves-then :
        (ok : Bool) (r s r' : Row)
        → Moves ((fault, event) ∷ []) true r s
        → Moves events ok s r'
        → Moves ((fault, event) ∷ events) ok r r'
    Moves-then ok r s r' (i, le, st, past) (i', le', st', past') = (
      rw i' i,
      ground arith,
      widen st st',
      λ h. (IsPast-kept event s r' i' le' (past refl).0, past' h),
    )
      where
        widen :
            SameStatus r s ⊎ SaysAny ((fault, event) ∷ []) s
            → SameStatus s r' ⊎ SaysAny events r'
            → SameStatus r r' ⊎ SaysAny ((fault, event) ∷ events) r'
        widen (inl same) (inl same') =
            inl (rw same'.0 same.0, rw same'.1 same.1, rw same'.2 same.2, rw same'.3 same.3)
        widen (inr (inl says)) (inl same') = inr (inl (SaysOf-kept event s r' i' same' says))
        widen (inr (inr none_left)) st'' = elim none_left [ ]
        widen st'' (inr says) = inr (inr says)

  -- A watch takes no row back to an older resource version, and each row says the status that it said
  -- before or that of an object of its session that the watch showed, whichever transactions fail and
  -- in whichever order and how often the objects are shown; after a watch without an error no row is
  -- behind an object of its session that was shown with a phase.
  pub run_watch-Moves :
      (events : List (Fault × WatchEvent)) (t : Tables)
      → Pairs
          (Moves events (run_watch sources events t).1)
          t.rows
          (run_watch sources events t).0.rows
  unfolding run_watch
  run_watch-Moves [] t =
      Pairs-same _ t.rows (λ r. (refl, ground arith, inl (refl, refl, refl, refl), λ _. tt))
  run_watch-Moves ((fault, event) ∷ events) t =
      by_answer (handle sources fault event t) (handle-Moves fault event t) (run_watch-Moves events)
    where
      by_answer :
          (u : Tables × Bool)
          → Pairs (Moves ((fault, event) ∷ []) u.1) t.rows u.0.rows
          → ((t' : Tables)
              → Pairs
                  (Moves events (run_watch sources events t').1)
                  t'.rows
                  (run_watch sources events t').0.rows)
          → Pairs
              (Moves ((fault, event) ∷ events) (continue sources (run_watch sources events) u).1)
              t.rows
              (continue sources (run_watch sources events) u).0.rows
      by_answer (t', true) first rest =
          Pairs-trans _ _ _ t.rows t'.rows _
            (Moves-then fault event events (run_watch sources events t').1) first (rest t')
      by_answer (t', false) first rest =
          Pairs-trans _ _ _ t.rows t'.rows t'.rows
            (λ r s r' h e. Moves-stop fault event events r r' (rw e h)) first
            (Pairs-same (λ r r'. r' ≡ r) t'.rows (λ r. refl))
