-- ===== src/Backend/Session/Transitions.antt =====
-- The transitions of a session: what a successful request has sent, and what a repeated one gets.
use bosun.Prelude.{
  ℕ, zero, suc, ◌≡◌, ◌≢◌, refl, subst, ◌<◌, ◌⊎◌, inl, inr, String, true, false, Option, none, some,
  arith, Bool-cases, Option-cases, str_eq_ne,
}
use bosun.Backend.Session.{
  Session, Action, hibernate, resume, retry, other_action, Cr, Result, ok, err, SessionError,
  not_found, invalid_transition, allowed_transition, transition_already_requested, belongs,
  apply_action, CrRead, cr_found, cr_missing, cr_unavailable, CrWrite, stored, conflicting, refused,
  Client, requested, after_update, mutate_read, mutate_from, mutate,
}

module _ (client : Client) where
  open client use {World, get, update, format, backoff_steps}

  -- One update that was sent and stored: for an object of the session that was read just before it,
  -- whose phase admits the action, and which was not yet asked for it.
  pub record IsSent (session : Session) (action : Action) (nonce : String) (now : ℕ) (updated : Cr)
      (after : World) : Type 0 where
    pub before : World
    pub current : Cr
    pub sent : Cr
    pub read : get session.cr_namespace session.cr_name before ≡ cr_found current
    pub owned : belongs current session ≡ true
    pub admitted : allowed_transition current.phase action ≡ true
    pub pending : transition_already_requested current action ≡ false
    pub applied : apply_action action nonce (format now) current ≡ some sent
    pub answered : update sent before ≡ (after, stored updated)

  -- What a result promises of the world after it.
  abbrev pub SentIfOk : Session → Action → String → ℕ → World × Result Cr → Type 0
  SentIfOk session action nonce now (after, ok updated) =
      IsSent session action nonce now updated after
  SentIfOk session action nonce now (after, err e) = Unit

  -- A request that passes its checks, and one that does not.
  abbrev Requested : Session → Action → String → ℕ → Cr → Result Cr → Type 0
  Requested session action nonce now current r =
      ((sent : Cr) × (belongs current session ≡ true)
        × (allowed_transition current.phase action ≡ true)
        × (transition_already_requested current action ≡ false)
        × (apply_action action nonce (format now) current ≡ some sent)
        × (r ≡ ok sent))
      ⊎ ((e : SessionError) × (r ≡ err e))

  requested_either :
      (session : Session) (action : Action) (nonce : String) (now : ℕ) (current : Cr)
      → Requested session action nonce now current
          (requested client session action nonce now current)
  unfolding requested
  requested_either session action nonce now current = elim (Bool-cases (belongs current session)) [
    | inr b ↦ rw b (inr (not_found, refl))
    | inl b ↦ rw b (elim (Bool-cases (allowed_transition current.phase action)) [
      | inr a ↦ rw a (inr (invalid_transition, refl))
      | inl a ↦ rw a (elim (Bool-cases (transition_already_requested current action)) [
        | inl t ↦ rw t (inr (invalid_transition, refl))
        | inr t ↦ rw t (elim (Option-cases (apply_action action nonce (format now) current)) [
          | inl n ↦ rw n (inr (invalid_transition, refl))
          | inr (sent, n) ↦ rw n (inl (sent, refl, refl, refl, refl, refl))
        ])
      ])
    ])
  ]

  after_update-SentIfOk :
      (session : Session) (action : Action) (nonce : String) (now : ℕ)
      (rest : World → World × Result Cr) (before : World) (current sent : Cr)
      (answer : World × CrWrite)
      → get session.cr_namespace session.cr_name before ≡ cr_found current
      → belongs current session ≡ true
      → allowed_transition current.phase action ≡ true
      → transition_already_requested current action ≡ false
      → apply_action action nonce (format now) current ≡ some sent
      → update sent before ≡ answer
      → ((w : World) → SentIfOk session action nonce now (rest w))
      → SentIfOk session action nonce now (after_update client rest answer)
  after_update-SentIfOk session action nonce now rest before current sent (w, stored cr) read owned
        admitted pending applied answered others =
      record {
        before = before;
        current = current;
        sent = sent;
        read = read;
        owned = owned;
        admitted = admitted;
        pending = pending;
        applied = applied;
        answered = answered;
      }
  after_update-SentIfOk session action nonce now rest before current sent (w, conflicting) read
        owned admitted pending applied answered others =
      others w
  after_update-SentIfOk session action nonce now rest before current sent (w, refused) read owned
        admitted pending applied answered others =
      tt

  mutate_read-SentIfOk :
      (session : Session) (action : Action) (nonce : String) (now : ℕ)
      (rest : World → World × Result Cr) (w : World) (read : CrRead)
      → get session.cr_namespace session.cr_name w ≡ read
      → ((v : World) → SentIfOk session action nonce now (rest v))
      → SentIfOk session action nonce now
          (mutate_read client rest (requested client session action nonce now) read w)
  mutate_read-SentIfOk session action nonce now rest w (cr_found current) h others =
      elim (requested_either session action nonce now current) [
        | inr (e, r) ↦ rw r tt
        | inl (sent, b, a, t, n, r) ↦ rw r (
            after_update-SentIfOk session action nonce now rest w current sent (update sent w) h b a
              t n refl others)
      ]
  mutate_read-SentIfOk session action nonce now rest w cr_missing h others = tt
  mutate_read-SentIfOk session action nonce now rest w cr_unavailable h others = tt

  mutate_from-SentIfOk :
      (n : ℕ) (session : Session) (action : Action) (nonce : String) (now : ℕ) (w : World)
      → SentIfOk session action nonce now (mutate_from client n session action nonce now w)
  unfolding mutate_from
  mutate_from-SentIfOk zero session action nonce now w = tt
  mutate_from-SentIfOk (suc n) session action nonce now w =
      mutate_read-SentIfOk session action nonce now (mutate_from client n session action nonce now)
        w (get session.cr_namespace session.cr_name w) refl
        (mutate_from-SentIfOk n session action nonce now)

  -- Whatever the API server answers: a mutation that succeeds has sent, as its last call, the action
  -- for an object of this session, read just before, whose phase admits the action and which was
  -- not asked for it yet; it returns the object as it was stored.
  pub mutate-SentIfOk :
      (session : Session) (action : Action) (nonce : String) (now : ℕ) (w : World)
      → SentIfOk session action nonce now (mutate client session action nonce now w)
  unfolding mutate
  mutate-SentIfOk session action nonce now w =
      mutate_from-SentIfOk backoff_steps session action nonce now w

  -- The object after the action was asked for: of the same session, and asked for the action.
  abbrev IsAsked : Session → Action → Option Cr → Type 0
  IsAsked session action none = Unit
  IsAsked session action (some cr) =
      (belongs cr session ≡ true) × (transition_already_requested cr action ≡ true)

  apply_action-IsAsked :
      (session : Session) (action : Action) (nonce stamp : String) (current : Cr)
      → belongs current session ≡ true
      → current.observed_resume_nonce ≢ nonce
      → IsAsked session action (apply_action action nonce stamp current)
  unfolding apply_action transition_already_requested
  apply_action-IsAsked session hibernate nonce stamp current b fresh = (b, refl)
  apply_action-IsAsked session resume nonce stamp current b fresh =
      (b, rw (str_eq_ne current.observed_resume_nonce nonce fresh) refl)
  apply_action-IsAsked session retry nonce stamp current b fresh =
      (b, rw (str_eq_ne current.observed_resume_nonce nonce fresh) refl)
  apply_action-IsAsked session other_action nonce stamp current b fresh = tt

  requested-refused :
      (session : Session) (action : Action) (nonce : String) (now : ℕ) (cr : Cr)
      → belongs cr session ≡ true
      → transition_already_requested cr action ≡ true
      → requested client session action nonce now cr ≡ err invalid_transition
  unfolding requested
  requested-refused session action nonce now cr b t =
      elim (Bool-cases (allowed_transition cr.phase action)) [
        | inl a ↦ rw (b, a, t) refl
        | inr a ↦ rw (b, a) refl
      ]

  mutate_from-refused :
      (n : ℕ) (session : Session) (action : Action) (nonce : String) (now : ℕ) (cr : Cr) (w : World)
      → 0 < n
      → get session.cr_namespace session.cr_name w ≡ cr_found cr
      → requested client session action nonce now cr ≡ err invalid_transition
      → mutate_from client n session action nonce now w ≡ (w, err invalid_transition)
  unfolding mutate_from
  mutate_from-refused zero session action nonce now cr w positive h r = absurd (omega arith)
  mutate_from-refused (suc n) session action nonce now cr w positive h r = rw (h, r) refl

  -- An object that was asked for the action, and of which the operator has not seen the new nonce:
  -- a second request for the action is refused and changes nothing.
  pub mutate_again :
      (session : Session) (action : Action) (nonce stamp other : String) (now : ℕ)
      (current sent : Cr) (w : World)
      → belongs current session ≡ true
      → apply_action action nonce stamp current ≡ some sent
      → current.observed_resume_nonce ≢ nonce
      → get session.cr_namespace session.cr_name w ≡ cr_found sent
      → 0 < backoff_steps
      → mutate client session action other now w ≡ (w, err invalid_transition)
  unfolding mutate
  mutate_again session action nonce stamp other now current sent w b a fresh h steps =
      let (owned, asked) =
        subst (IsAsked session action) a
          (apply_action-IsAsked session action nonce stamp current b fresh) in
      mutate_from-refused backoff_steps session action other now sent w steps h
        (requested-refused session action other now sent owned asked)
