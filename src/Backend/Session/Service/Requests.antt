-- ===== src/Backend/Session/Service/Requests.antt =====
-- What a requested transition that succeeds has asked of the cluster and of the store.
use bosun.Prelude.{
  ℕ, ◌≡◌, ◌⊎◌, refl, String, Option, none, some, eq_iff, str_eq, Bool-cases, [], ◌∷◌, inl, inr,
}
use bosun.Backend.Session.{
  Session, Action, hibernate, resume, retry, other_action, Cr, Result, ok, err, concurrent_update,
  invalid_transition, internal, not_found, capacity, environment_failed, environment_ready,
  validation, idempotency,
}
use bosun.Backend.Session.Service.{Event, Library, Services, new_event}
use bosun.Backend.Session.Service.Lifecycle.{
  desired_record, event_kind, latest_if_same, after_desired, save_desired, after_mutate, with_nonce,
  nonce_for, transition_record, transition,
}

-- Two records that ask for the same.
abbrev pub SameRequest : Session → Session → Type 0
SameRequest s rec = (s.desired_state ≡ rec.desired_state) × (s.resume_nonce ≡ rec.resume_nonce)

module _ (library : Library) (services : Services) where
  open services use {World, now, new_id, get, update_desired, runtime_mutate}

  -- The store was asked to keep the record and returned this one, or it had seen a concurrent update
  -- and holds a record that asks for the same.
  abbrev pub IsSaved : String → String → Session → Session → Type 0
  IsSaved user_id session_id next s =
      (event : Event) × (w : World) × (w' : World) × ((update_desired next event w ≡ (w', ok s))
        ⊎ ((update_desired next event w ≡ (w', err concurrent_update))
            × (get user_id session_id w' ≡ ok s)
            × SameRequest s next))

  abbrev SavedIfOk : String → String → Session → World × Result Session → Type 0
  SavedIfOk user_id session_id next (w, ok s) = IsSaved user_id session_id next s
  SavedIfOk user_id session_id next (w, err e) = Unit

  latest_if_same-SavedIfOk :
      (user_id session_id : String) (next : Session) (event : Event) (w w' : World)
      (r : Result Session)
      → update_desired next event w ≡ (w', err concurrent_update)
      → get user_id session_id w' ≡ r
      → SavedIfOk user_id session_id next (w', latest_if_same library services next r)
  latest_if_same-SavedIfOk user_id session_id next event w w' (err e) h g = tt
  latest_if_same-SavedIfOk user_id session_id next event w w' (ok latest) h g =
      elim (Bool-cases (str_eq latest.desired_state next.desired_state)) [
        | inr e ↦ rw e tt
        | inl e ↦ rw e (elim (Bool-cases (str_eq latest.resume_nonce next.resume_nonce)) [
          | inr n ↦ rw n tt
          | inl n ↦ rw n (
            event,
            w,
            w',
            inr (
              h,
              g,
              (
                (eq_iff latest.desired_state next.desired_state).0 e,
                (eq_iff latest.resume_nonce next.resume_nonce).0 n,
              ),
            ),
          )
        ])
      ]

  after_desired-SavedIfOk :
      (user_id session_id : String) (next : Session) (event : Event) (w : World)
      (answer : World × Result Session)
      → update_desired next event w ≡ answer
      → SavedIfOk user_id session_id next
          (after_desired library services user_id session_id next answer)
  after_desired-SavedIfOk user_id session_id next event w (w', ok s) h = (event, w, w', inl h)
  after_desired-SavedIfOk user_id session_id next event w (w', err concurrent_update) h =
      latest_if_same-SavedIfOk user_id session_id next event w w' (get user_id session_id w') h refl
  after_desired-SavedIfOk user_id session_id next event w (w', err not_found) h = tt
  after_desired-SavedIfOk user_id session_id next event w (w', err invalid_transition) h = tt
  after_desired-SavedIfOk user_id session_id next event w (w', err capacity) h = tt
  after_desired-SavedIfOk user_id session_id next event w (w', err environment_failed) h = tt
  after_desired-SavedIfOk user_id session_id next event w (w', err environment_ready) h = tt
  after_desired-SavedIfOk user_id session_id next event w (w', err validation) h = tt
  after_desired-SavedIfOk user_id session_id next event w (w', err idempotency) h = tt
  after_desired-SavedIfOk user_id session_id next event w (w', err internal) h = tt

  save_desired-SavedIfOk :
      (user_id session_id : String) (next : Session) (event : World × Option Event)
      → SavedIfOk user_id session_id next
          (save_desired library services user_id session_id next event)
  save_desired-SavedIfOk user_id session_id next (w, none) = tt
  save_desired-SavedIfOk user_id session_id next (w, some event) =
      after_desired-SavedIfOk user_id session_id next event w (update_desired next event w) refl

  -- A new nonce to start the session again, and the one that it has otherwise.
  abbrev pub IsNonceOf : Action → Session → World → String → World → Type 0
  IsNonceOf resume rec start nonce before = new_id start ≡ (before, some nonce)
  IsNonceOf retry rec start nonce before = new_id start ≡ (before, some nonce)
  IsNonceOf _ rec start nonce before = (nonce ≡ rec.resume_nonce) × (before ≡ start)

  -- What the record asks for: to hibernate, or to run under the nonce.
  abbrev pub AsksFor : Action → Session → String → Session → Type 0
  AsksFor hibernate rec nonce next =
      (next.desired_state ≡ "Hibernated") × (next.resume_nonce ≡ rec.resume_nonce)
  AsksFor _ rec nonce next = (next.desired_state ≡ "Running") × (next.resume_nonce ≡ nonce)

  desired_record-AsksFor :
      (action : Action) (rec : Session) (nonce : String) (at : ℕ)
      → AsksFor action rec nonce (desired_record library services action nonce at rec)
  unfolding desired_record
  desired_record-AsksFor hibernate rec nonce at = (refl, refl)
  desired_record-AsksFor resume rec nonce at = (refl, refl)
  desired_record-AsksFor retry rec nonce at = (refl, refl)
  desired_record-AsksFor other_action rec nonce at = (refl, refl)

  -- The request that the cluster accepted, for the record that the store held.
  pub record IsRequested (user_id session_id : String) (action : Action) (w : World) (s : Session)
      : Type 0 where
    pub rec : Session
    pub nonce : String
    pub before : World
    pub after : World
    pub cr : Cr
    pub next : Session
    pub held : get user_id session_id w ≡ ok rec
    pub drawn : IsNonceOf action rec w nonce before
    pub accepted : runtime_mutate rec action nonce (now before) before ≡ (after, ok cr)
    pub asked : AsksFor action rec nonce next
    pub same_session :
        (next.id ≡ rec.id) × (next.user_id ≡ rec.user_id) × (next.version ≡ rec.version)
    pub saved : IsSaved user_id session_id next s

  abbrev pub RequestedIfOk : String → String → Action → World → World × Result Session → Type 0
  RequestedIfOk user_id session_id action w (w', ok s) = IsRequested user_id session_id action w s
  RequestedIfOk user_id session_id action w (w', err e) = Unit

  desired_record-same :
      (action : Action) (rec : Session) (nonce : String) (at : ℕ)
      → let next = desired_record library services action nonce at rec in
        (next.id ≡ rec.id) × (next.user_id ≡ rec.user_id) × (next.version ≡ rec.version)
  unfolding desired_record
  desired_record-same hibernate rec nonce at = (refl, refl, refl)
  desired_record-same resume rec nonce at = (refl, refl, refl)
  desired_record-same retry rec nonce at = (refl, refl, refl)
  desired_record-same other_action rec nonce at = (refl, refl, refl)

  module _ (user_id session_id : String) (action : Action) (start : World) where
    SavedIfOk-RequestedIfOk :
        (rec : Session) (nonce : String) (before after : World) (cr : Cr)
        (r : World × Result Session)
        → get user_id session_id start ≡ ok rec
        → IsNonceOf action rec start nonce before
        → runtime_mutate rec action nonce (now before) before ≡ (after, ok cr)
        → SavedIfOk user_id session_id
            (desired_record library services action nonce (now before) rec)
            r
        → RequestedIfOk user_id session_id action start r
    SavedIfOk-RequestedIfOk rec nonce before after cr (w, err e) held drawn accepted saved = tt
    SavedIfOk-RequestedIfOk rec nonce before after cr (w, ok s) held drawn accepted saved = record {
      rec = rec;
      nonce = nonce;
      before = before;
      after = after;
      cr = cr;
      next = desired_record library services action nonce (now before) rec;
      held = held;
      drawn = drawn;
      accepted = accepted;
      asked = desired_record-AsksFor action rec nonce (now before);
      same_session = desired_record-same action rec nonce (now before);
      saved = saved;
    }

    after_mutate-RequestedIfOk :
        (rec : Session) (nonce : String) (before : World) (answer : World × Result Cr)
        → get user_id session_id start ≡ ok rec
        → IsNonceOf action rec start nonce before
        → runtime_mutate rec action nonce (now before) before ≡ answer
        → RequestedIfOk user_id session_id action start (
            after_mutate library services user_id session_id action
              (desired_record library services action nonce (now before) rec)
              answer)
    after_mutate-RequestedIfOk rec nonce before (w, err e) held drawn h = tt
    after_mutate-RequestedIfOk rec nonce before (w, ok cr) held drawn h =
        let next = desired_record library services action nonce (now before) rec in
        let payload =
          ("desiredState", next.desired_state) ∷ ("resumeNonce", next.resume_nonce) ∷ [] in
        let event =
          new_event library services next.id (event_kind library services action) payload
            next.updated_at w in
        SavedIfOk-RequestedIfOk rec nonce before w cr
          (save_desired library services user_id session_id next event) held drawn h
          (save_desired-SavedIfOk user_id session_id next event)

    with_nonce-RequestedIfOk :
        (rec : Session) (nonce : World × Option String)
        → get user_id session_id start ≡ ok rec
        → ((before : World) (n : String)
            → nonce ≡ (before, some n)
            → IsNonceOf action rec start n before)
        → RequestedIfOk user_id session_id action start
            (with_nonce library services user_id session_id action rec nonce)
    with_nonce-RequestedIfOk rec (w, none) held drawn = tt
    with_nonce-RequestedIfOk rec (w, some nonce) held drawn =
        after_mutate-RequestedIfOk rec nonce w (runtime_mutate rec action nonce (now w) w) held
          (drawn w nonce refl) refl

    nonce_for-IsNonceOf :
        (rec : Session) (before : World) (n : String)
        → nonce_for library services action rec start ≡ (before, some n)
        → IsNonceOf action rec start n before
    nonce_for-IsNonceOf rec before n h = by_action action h
      where
        by_action :
            (x : Action)
            → nonce_for library services x rec start ≡ (before, some n)
            → IsNonceOf x rec start n before
        by_action resume h' = h'
        by_action retry h' = h'
        by_action hibernate h' = (cc, cc)
        by_action other_action h' = (cc, cc)

    transition_record-RequestedIfOk :
        (found : Result Session)
        → get user_id session_id start ≡ found
        → RequestedIfOk user_id session_id action start
            (transition_record library services user_id session_id action found start)
    transition_record-RequestedIfOk (err e) held = tt
    transition_record-RequestedIfOk (ok rec) held =
        with_nonce-RequestedIfOk rec (nonce_for library services action rec start) held
          (nonce_for-IsNonceOf rec)

    -- A transition that succeeds was accepted by the cluster for the record that the store held, with
    -- a new nonce where it starts the session again; then the store was asked to keep that record with
    -- the state and the nonce that are asked for, and it returned the session, or it had seen a
    -- concurrent update and holds the session with just that state and nonce.
    pub transition-RequestedIfOk :
        RequestedIfOk user_id session_id action start
          (transition library services user_id session_id action start)
    unfolding transition
    transition-RequestedIfOk = transition_record-RequestedIfOk (get user_id session_id start) refl
