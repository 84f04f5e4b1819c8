-- ===== src/Backend/Session/Service/Creation.antt =====
-- What a creation that succeeds has checked and written.
use bosun.Prelude.{
  ℕ, ◌<◌, ◌≡◌, refl, ◌∙◌, ap, ◌⊎◌, inl, inr, String, true, false, Option, none, some, arith, eq_iff,
  leb, str_eq, Bool-cases, Option-cases,
}
use bosun.Backend.Session.{SessionError, Result, ok, err}
use bosun.Backend.Session.Service.{
  CreateRequest, CreateOutput, Event, Record, decide, Library, Services, max_sessions_per_user,
  valid_create_request, new_session, accepted, input_of, committed, store_session, rendered,
  create_session, with_count, with_phase, replayed, with_record, create,
}

module _ (library : Library) (services : Services) where
  open services use {
    World, now, get_idempotency_key, environment_phase, count_total,
    create_with_event_and_idempotency, runtime_ensure,
  }

  -- One write of a new session: for a user and request, from the state that was asked for it.
  pub record IsStored (user_id key method path request_hash : String) (req : CreateRequest)
      (w' : World) (output : CreateOutput) : Type 0 where
    pub id : String
    pub nonce : String
    pub at : ℕ
    pub event : Event
    pub before : World
    pub after : World
    pub written :
        create_with_event_and_idempotency
          (new_session library user_id req id nonce at)
          event
          (input_of library services key method path request_hash output.body at)
          before
        ≡ (after, none)
    pub answer : output ≡ accepted library services output.body
    pub ensured : w' ≡ (runtime_ensure (new_session library user_id req id nonce at) after).0

  abbrev pub StoredIfOk :
      String
      → String
      → String
      → String
      → String
      → CreateRequest
      → World × Result CreateOutput
      → Type 0
  StoredIfOk user_id key method path request_hash req (w', ok output) =
      IsStored user_id key method path request_hash req w' output
  StoredIfOk user_id key method path request_hash req (w', err e) = Unit

  module _ (user_id key method path request_hash : String) (req : CreateRequest) where
    abbrev Stored : World × Result CreateOutput → Type 0
    Stored = StoredIfOk user_id key method path request_hash req

    committed-Stored :
        (id nonce body : String) (at : ℕ) (event : Event) (before : World)
        (answer : World × Option SessionError)
        → create_with_event_and_idempotency
            (new_session library user_id req id nonce at)
            event
            (input_of library services key method path request_hash body at)
            before
          ≡ answer
        → Stored
            (committed library services (new_session library user_id req id nonce at) body answer)
    committed-Stored id nonce body at event before (w, some e) h = tt
    committed-Stored id nonce body at event before (w, none) h = record {
      id = id;
      nonce = nonce;
      at = at;
      event = event;
      before = before;
      after = w;
      written = h;
      answer = refl;
      ensured = refl;
    }

    store_session-Stored :
        (id nonce body : String) (at : ℕ) (event : World × Option Event)
        → Stored (
            store_session library services
              (new_session library user_id req id nonce at)
              (input_of library services key method path request_hash body at)
              body
              event)
    store_session-Stored id nonce body at (w, none) = tt
    store_session-Stored id nonce body at (w, some event) =
        committed-Stored id nonce body at event w _ refl

    rendered-Stored :
        (id nonce : String) (at : ℕ) (body : Option String) (w : World)
        → Stored (
            rendered library services
              (new_session library user_id req id nonce at)
              (λ b. input_of library services key method path request_hash b at)
              body
              w)
    rendered-Stored id nonce at none w = tt
    rendered-Stored id nonce at (some body) w = store_session-Stored id nonce body at _

    create_session-Stored :
        (w : World)
        → Stored (create_session library services user_id key method path request_hash req w)
    unfolding create_session
    create_session-Stored w =
        let (w1, _) = services.new_id w in
        elim (Option-cases (services.new_id w).1) [
          | inl e ↦ rw (e, create_session) tt
          | inr (id, e) ↦
              rw (e, create_session)
                (elim (Option-cases (services.new_id w1).1) [
                  | inl n ↦ rw n tt
                  | inr (nonce, n) ↦ rw n (
                      let w2 = (services.new_id w1).0 in
                      rendered-Stored id nonce (now w2)
                        (library.marshal_session
                          (new_session library user_id req id nonce (now w2)))
                        w2)
                ])
        ]

    -- The stored answer to the same request, or a new session after every check.
    abbrev IsAnswer : World → World → CreateOutput → Type 0
    IsAnswer w w' output =
        ((existing : Record) × (get_idempotency_key user_id key w ≡ some (some existing))
          × (existing.request_hash ≡ request_hash)
          × (w' ≡ w)
          × (output ≡ replayed library services (some existing)))
        ⊎ ((total : ℕ) × (get_idempotency_key user_id key w ≡ some none)
            × (environment_phase user_id w ≡ some "Ready")
            × (count_total user_id w ≡ ok total)
            × (total < max_sessions_per_user)
            × IsStored user_id key method path request_hash req w' output)

    abbrev Answered : World → World × Result CreateOutput → Type 0
    Answered w (w', ok output) = IsAnswer w w' output
    Answered w (w', err e) = Unit

    Stored-Answered :
        (w : World) (total : ℕ) (r : World × Result CreateOutput)
        → get_idempotency_key user_id key w ≡ some none
        → environment_phase user_id w ≡ some "Ready"
        → count_total user_id w ≡ ok total
        → total < max_sessions_per_user
        → Stored r
        → Answered w r
    Stored-Answered w total (w', err e) i p c l s = tt
    Stored-Answered w total (w', ok output) i p c l s = inr (total, i, p, c, l, s)

    with_count-Answered :
        (w : World) (count : Result ℕ)
        → get_idempotency_key user_id key w ≡ some none
        → environment_phase user_id w ≡ some "Ready"
        → count_total user_id w ≡ count
        → Answered w (
            with_count library services count w
              (create_session library services user_id key method path request_hash req))
    with_count-Answered w (err e) i p c = tt
    with_count-Answered w (ok total) i p c = elim (Bool-cases (leb max_sessions_per_user total)) [
      | inl full ↦ rw full tt
      | inr less ↦
          rw less (Stored-Answered w total _ i p c (ground arith) (create_session-Stored w))
    ]

    with_phase-Answered :
        (w : World) (phase : Option String)
        → get_idempotency_key user_id key w ≡ some none
        → environment_phase user_id w ≡ phase
        → Answered w (
            with_phase library services phase w (λ v.
              with_count library services
                (count_total user_id v)
                v
                (create_session library services user_id key method path request_hash req)))
    with_phase-Answered w none i p = tt
    with_phase-Answered w (some phase) i p = elim (Bool-cases (str_eq phase "Ready")) [
      | inl e ↦ rw e (
          with_count-Answered w (count_total user_id w) i (p ∙ ap some ((eq_iff phase "Ready").0 e))
            refl)
      | inr e ↦
          rw e (elim (Bool-cases (str_eq phase "Failed")) [ inl f ↦ rw f tt | inr f ↦ rw f tt ])
    ]

    with_record-Answered :
        (w : World) (found : Option (Option Record))
        → get_idempotency_key user_id key w ≡ found
        → Answered w (
            with_record library services found request_hash w (λ v.
              with_phase library services (environment_phase user_id v) v (λ u.
                with_count library services
                  (count_total user_id u)
                  u
                  (create_session library services user_id key method path request_hash req))))
    unfolding decide
    with_record-Answered w none i = tt
    with_record-Answered w (some none) i =
        with_phase-Answered w (environment_phase user_id w) i refl
    with_record-Answered w (some (some existing)) i =
        elim (Bool-cases (str_eq existing.request_hash request_hash)) [
          | inl e ↦
              rw e (inl (existing, i, (eq_iff existing.request_hash request_hash).0 e, refl, refl))
          | inr e ↦ rw e tt
        ]

    -- What a result promises: a success is for a named key and a valid request.
    abbrev pub IsCreated : World → World × Result CreateOutput → Type 0
    IsCreated w (w', err e) = Unit
    IsCreated w (w', ok output) =
        (str_eq key "" ≡ false) × (valid_create_request library req ≡ true) × IsAnswer w w' output

    IsCreated-Answered :
        (w : World) (r : World × Result CreateOutput)
        → str_eq key "" ≡ false
        → valid_create_request library req ≡ true
        → Answered w r
        → IsCreated w r
    IsCreated-Answered w (w', err e) k v a = tt
    IsCreated-Answered w (w', ok output) k v a = (k, v, a)

    -- A creation that succeeds was valid, and it either returned the stored response of the same
    -- request and changed nothing, or it found the environment ready and the user below the maximum
    -- of sessions, and wrote the new session, its event and the response in one call.
    pub create-IsCreated :
        (w : World)
        → IsCreated w (create library services user_id key method path request_hash req w)
    unfolding create
    create-IsCreated w = elim (Bool-cases (str_eq key "")) [
      | inl e ↦ rw e tt
      | inr e ↦ rw e (elim (Bool-cases (valid_create_request library req)) [
        | inr v ↦ rw v tt
        | inl v ↦ rw v (
            IsCreated-Answered w _ e v
              (with_record-Answered w (get_idempotency_key user_id key w) refl))
      ])
    ]
