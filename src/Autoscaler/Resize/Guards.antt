-- ===== src/Autoscaler/Resize/Guards.antt =====
-- What has to hold for a resize to be sent, what is sent, and what a refusal leads to.
use bosun.Prelude.{
  str_eq_ne, ℕ, ◌+◌, ◌≤◌, ◌<◌, ◌≡◌, ◌≢◌, refl, ap, sym, subst, ◌⊎◌, inl, inr, String, true, false,
  Option, none, some, List, [], ◌∷◌, arith, eq_iff, ltb, ◌==◌, str_eq, if◌then◌else◌, Bool-cases,
  find, any, All,
}
use bosun.Prelude.Dict.{lookup}
use bosun.Policy.{policy, Requirements}
use bosun.Cluster.{
  AgentSession, Pod, Container, Condition, agent_container_name, find_pod_container,
  actual_agent_resources,
}
use bosun.Autoscaler.Plan.{AutoscaleSession}
use bosun.Autoscaler.Controller.{
  Api, Fetched, found, not_found, unavailable, Controller, FailedResizeIntent, same_intent,
  retry_suppressed, interval_of, record_failed_attempt,
}
use bosun.Autoscaler.Controller.Backoff.{retry_suppressed-record_failed_attempt}
use bosun.Autoscaler.Resize.{
  skipped, is_applied, Resized, target_of, intent_of, equal_resources, set_agent_resources,
  is_resize_condition, resource_requirements_equal, same_actual, actual_cpu_unchanged,
  both_agents_equal, pod_has_active_resize, resized_pod, pod_unchanged, send_resize, resize_state,
}

pub Fetched-cases {ℓ} :
    {A : Type ℓ} (f : Fetched A) → (f ≡ not_found) ⊎ (f ≡ unavailable) ⊎ ((a : A) × (f ≡ found a))
Fetched-cases not_found = inl refl
Fetched-cases unavailable = inr (inl refl)
Fetched-cases (found a) = inr (inr (a, refl))

abbrev pub SameAmounts : Requirements → Requirements → Type 0
SameAmounts x y =
    (x.limits.cpu ≡ y.limits.cpu)
    × (x.limits.memory ≡ y.limits.memory)
    × (x.requests.cpu ≡ y.requests.cpu)
    × (x.requests.memory ≡ y.requests.memory)

abbrev pub SameAgents : Option Container → Option Container → Type 0
SameAgents (some x) (some y) = SameAmounts x.resources y.resources
SameAgents _ _ = ⊥

-- The CPU limit that the Kubelet reports, if it does.
abbrev pub SameActual : Option Requirements → Option Requirements → Type 0
SameActual none none = Unit
SameActual (some x) (some y) = x.limits.cpu ≡ y.limits.cpu
SameActual _ _ = ⊥

-- No condition says that a resize is under way.
abbrev pub IsSettled : List Condition → Type 0
IsSettled =
    All
      λ c. (c.status ≡ "False") ⊎ ((c.kind ≢ "PodResizePending") × (c.kind ≢ "PodResizeInProgress"))

-- The latest Pod is the planned one, with the same resources, and settled.
abbrev pub IsSamePod : Pod → Pod → Type 0
IsSamePod planned latest =
    (latest.uid ≡ planned.uid)
    × SameAgents (find_pod_container latest agent_container_name)
        (find_pod_container planned agent_container_name)
    × SameActual (actual_agent_resources planned) (actual_agent_resources latest)
    × IsSettled latest.conditions

both_agents_equal-SameAgents :
    (x y : Option Container) → both_agents_equal x y ≡ true → SameAgents x y
unfolding resource_requirements_equal
both_agents_equal-SameAgents (some x) (some y) h =
    (ground (arith, h), ground (arith, h), ground (arith, h), ground (arith, h))
both_agents_equal-SameAgents (some x) none h = cc
both_agents_equal-SameAgents none y h = cc

same_actual-SameActual : (x y : Option Requirements) → same_actual x y ≡ true → SameActual x y
same_actual-SameActual none none h = tt
same_actual-SameActual (some x) (some y) h = ground (arith, h)
same_actual-SameActual none (some y) h = cc
same_actual-SameActual (some x) none h = cc

is_resize_condition-IsSettled :
    (cs : List Condition) → any is_resize_condition cs ≡ false → IsSettled cs
is_resize_condition-IsSettled [] h = tt
is_resize_condition-IsSettled (c ∷ cs) h = (
  elim (Bool-cases (str_eq c.status "False")) [
    | inl e ↦ inl ((eq_iff c.status "False").0 e)
    | inr e ↦ inr (
      λ pending. ground (arith, h, e, (eq_iff c.kind "PodResizePending").1 pending),
      λ running. ground (arith, h, e, (eq_iff c.kind "PodResizeInProgress").1 running),
    )
  ],
  is_resize_condition-IsSettled cs (ground (arith, h)),
)

pod_unchanged-IsSamePod :
    (planned latest : Pod) → pod_unchanged planned latest ≡ true → IsSamePod planned latest
unfolding pod_unchanged actual_cpu_unchanged pod_has_active_resize
pod_unchanged-IsSamePod planned latest h = (
  (eq_iff latest.uid planned.uid).0 (ground (arith, h)),
  both_agents_equal-SameAgents _ _ (ground (arith, h)),
  same_actual-SameActual _ _ (ground (arith, h)),
  is_resize_condition-IsSettled latest.conditions (ground (arith, h)),
)

-- The failed attempt, if there is one, was another resize, or its interval is over.
abbrev pub IsOver : AutoscaleSession → ℕ → ℕ → Option FailedResizeIntent → Type 0
IsOver state interval now none = Unit
IsOver state interval now (some failed) =
    (failed.pod_uid ≢ state.pod.uid)
    ⊎ (failed.cpu ≢ target_of state)
    ⊎ (failed.memory ≢ state.session.memory_request)
    ⊎ (failed.attempted_at + interval ≤ now)

retry_suppressed-IsOver :
    (state : AutoscaleSession) (now : ℕ) (c : Controller)
    → retry_suppressed state.session.uid (intent_of state 0) now c ≡ false
    → IsOver state (interval_of c) now (lookup state.session.uid c.failed_attempts)
unfolding retry_suppressed
retry_suppressed-IsOver state now c h = by_attempt (lookup state.session.uid c.failed_attempts) h
  where
    by_attempt :
        (o : Option FailedResizeIntent)
        → elim o [
          | none ↦ false
          | some failed ↦
              if same_intent failed (intent_of state 0)
              then ltb now (failed.attempted_at + interval_of c)
              else false
        ]
          ≡ false
        → IsOver state (interval_of c) now o
    by_attempt none k = tt
    by_attempt (some failed) k = elim (Bool-cases (str_eq failed.pod_uid state.pod.uid)) [
      | inr e ↦ inl (λ same. ground (arith, e, (eq_iff failed.pod_uid state.pod.uid).1 same))
      | inl e ↦ elim (Bool-cases (failed.cpu == target_of state)) [
        | inr f ↦ inr (inl (λ same. ground (arith, f, same)))
        | inl f ↦ elim (Bool-cases (failed.memory == state.session.memory_request)) [
          | inr g ↦ inr (inr (inl (λ same. ground (arith, g, same))))
          | inl g ↦ inr (inr (inr (ground (arith, e, f, g, k))))
        ]
      ]
    ]

SameAgents-both_agents_equal :
    (x y : Option Container) → SameAgents x y → both_agents_equal x y ≡ true
unfolding resource_requirements_equal
SameAgents-both_agents_equal (some x) (some y) h = ground (arith, h.0, h.1, h.2, h.3)
SameAgents-both_agents_equal (some x) none h = elim h [ ]
SameAgents-both_agents_equal none y h = elim h [ ]

SameActual-same_actual : (x y : Option Requirements) → SameActual x y → same_actual x y ≡ true
SameActual-same_actual none none h = refl
SameActual-same_actual (some x) (some y) h = ground (arith, h)
SameActual-same_actual none (some y) h = elim h [ ]
SameActual-same_actual (some x) none h = elim h [ ]

IsSettled-is_resize_condition :
    (cs : List Condition) → IsSettled cs → any is_resize_condition cs ≡ false
IsSettled-is_resize_condition [] h = refl
IsSettled-is_resize_condition (c ∷ cs) h =
    let rest = IsSettled-is_resize_condition cs h.1 in
    elim h.0 [
      | inl e ↦ ground (arith, (eq_iff c.status "False").1 e, rest)
      | inr (not_pending, not_running) ↦ ground (
        arith,
        str_eq_ne c.kind "PodResizePending" not_pending,
        str_eq_ne c.kind "PodResizeInProgress" not_running,
        rest,
      )
    ]

IsSamePod-pod_unchanged :
    (planned latest : Pod) → IsSamePod planned latest → pod_unchanged planned latest ≡ true
unfolding pod_unchanged actual_cpu_unchanged pod_has_active_resize
IsSamePod-pod_unchanged planned latest h = ground (
  arith,
  (eq_iff latest.uid planned.uid).1 h.0,
  SameAgents-both_agents_equal _ _ h.1,
  SameActual-same_actual _ _ h.2,
  IsSettled-is_resize_condition latest.conditions h.3,
)

IsOver-retry_suppressed :
    (state : AutoscaleSession) (now : ℕ) (c : Controller)
    → IsOver state (interval_of c) now (lookup state.session.uid c.failed_attempts)
    → retry_suppressed state.session.uid (intent_of state 0) now c ≡ false
unfolding retry_suppressed
IsOver-retry_suppressed state now c h = by_attempt (lookup state.session.uid c.failed_attempts) h
  where
    by_attempt :
        (o : Option FailedResizeIntent)
        → IsOver state (interval_of c) now o
        → elim o [
          | none ↦ false
          | some failed ↦
              if same_intent failed (intent_of state 0)
              then ltb now (failed.attempted_at + interval_of c)
              else false
        ]
          ≡ false
    by_attempt none k = refl
    by_attempt (some failed) (inl k) = ground (arith, str_eq_ne failed.pod_uid state.pod.uid k)
    by_attempt (some failed) (inr (inl k)) = ground (arith, k)
    by_attempt (some failed) (inr (inr (inl k))) = ground (arith, k)
    by_attempt (some failed) (inr (inr (inr k))) = ground (arith, k)

found_same : {A : Type 0} {f : Fetched A} {a b : A} → f ≡ found a → f ≡ found b → a ≡ b
found_same h k = cc (h, k)

other_generation :
    (state : AutoscaleSession) (session other : AgentSession)
    → (session.generation == state.session.generation) ≡ false
    → session ≡ other
    → other.generation ≡ state.session.generation
    → ⊥
other_generation state session other g same h =
    ground (arith, g, h, ap (λ (s : AgentSession). s.generation) same)

other_pod :
    (state : AutoscaleSession) (latest other : Pod)
    → pod_unchanged state.pod latest ≡ false
    → latest ≡ other
    → IsSamePod state.pod other
    → ⊥
other_pod state latest other u same h =
    let k = IsSamePod-pod_unchanged state.pod other h in
    cc (u, subst (λ p. pod_unchanged state.pod p ≡ true) (sym same) k)

module _ (api : Api) where
  open api use {World, now, get_session, get_pod, update_resize}

  -- Nothing was sent and nothing noted.
  abbrev pub IsIdle : Controller → World → Resized api → Type 0
  IsIdle c w r = (r.world ≡ w) × (r.controller ≡ c) × (is_applied r.outcome ≡ false)

  -- The checks that were passed, and the Pod that they found.
  pub record IsGuarded (state : AutoscaleSession) (c : Controller) (w : World) (latest : Pod)
      : Type 0 where
    pub not_suppressed :
        IsOver state (interval_of c) (now w) (lookup state.session.uid c.failed_attempts)
    pub session : AgentSession
    pub session_found : get_session state.session.namespace state.session.name w ≡ found session
    pub same_generation : session.generation ≡ state.session.generation
    pub pod_found : get_pod state.pod.namespace state.pod.name w ≡ found latest
    pub unchanged : IsSamePod state.pod latest

  -- No Pod passes the checks.
  abbrev pub IsHeld : AutoscaleSession → Controller → World → Type 0
  IsHeld state c w = (latest : Pod) → IsGuarded state c w latest → ⊥

  -- A resize is sent for the latest Pod exactly if the same resize of this Pod has not failed within
  -- the retry interval, the session has the generation that was observed, and the Pod has the identity,
  -- the Agent's resources and the reported CPU limit that were observed and no resize under way.
  -- Otherwise the call changes neither the cluster nor the controller's own state, and does not report
  -- the resize as applied.
  pub resize_state-IsGuarded :
      (state : AutoscaleSession) (c : Controller) (w : World)
      → (IsHeld state c w × IsIdle c w (resize_state api state c w))
        ⊎ ((latest : Pod) × IsGuarded state c w latest
            × (resize_state api state c w ≡ send_resize api state latest c w))
  unfolding resize_state
  resize_state-IsGuarded state c w =
      elim (Bool-cases (retry_suppressed state.session.uid (intent_of state 0) (now w) c)) [
        | inl e ↦ rw e (
            inl (
              λ latest g. cc (e, IsOver-retry_suppressed state (now w) c g.not_suppressed),
              (refl, refl, refl),
            ))
        | inr quiet ↦
            rw quiet
              (elim (Fetched-cases (get_session state.session.namespace state.session.name w)) [
                | inl e ↦ rw e (inl (λ latest g. cc (e, g.session_found), (refl, refl, refl)))
                | inr (inl e) ↦ rw e (inl (λ latest g. cc (e, g.session_found), (refl, refl, refl)))
                | inr (inr (session, e)) ↦
                    rw e (elim (Bool-cases (session.generation == state.session.generation)) [
                      | inr g ↦ rw g (
                          inl (
                            λ latest h.
                                other_generation state session h.session g
                                  (found_same e h.session_found) h.same_generation,
                            (refl, refl, refl),
                          ))
                      | inl g ↦
                          rw g
                            (elim (Fetched-cases (get_pod state.pod.namespace state.pod.name w)) [
                              | inl p ↦
                                  rw p (inl (λ latest h. cc (p, h.pod_found), (refl, refl, refl)))
                              | inr (inl p) ↦
                                  rw p (inl (λ latest h. cc (p, h.pod_found), (refl, refl, refl)))
                              | inr (inr (latest, p)) ↦
                                  rw p (elim (Bool-cases (pod_unchanged state.pod latest)) [
                                    | inr u ↦ rw u (
                                        inl (
                                          λ other h.
                                              other_pod state latest other u
                                                (found_same p h.pod_found) h.unchanged,
                                          (refl, refl, refl),
                                        ))
                                    | inl u ↦ rw u (
                                        inr (
                                          latest,
                                          record {
                                            not_suppressed =
                                                retry_suppressed-IsOver state (now w) c quiet;
                                            session = session;
                                            session_found = e;
                                            same_generation = ground arith;
                                            pod_found = p;
                                            unchanged = pod_unchanged-IsSamePod state.pod latest u;
                                          },
                                          refl,
                                        ))
                                  ])
                            ])
                    ])
              ])
      ]

  resize_state_suppressed :
      (state : AutoscaleSession) (c : Controller) (w : World)
      → retry_suppressed state.session.uid (intent_of state 0) (now w) c ≡ true
      → resize_state api state c w ≡ record { world = w; controller = c; outcome = skipped }
  unfolding resize_state
  resize_state_suppressed state c w h = rw h

  send_resize_refused :
      (state : AutoscaleSession) (latest : Pod) (c : Controller) (w : World) (error : String)
      → (update_resize (resized_pod state latest) w).1 ≡ some error
      → (send_resize api state latest c w).controller
        ≡ record_failed_attempt state.session.uid
            (intent_of state (now (update_resize (resized_pod state latest) w).0))
            c
  unfolding send_resize
  send_resize_refused state latest c w error e = rw (e, send_resize)

  -- After a resize that the API refused, the same resize of the same Pod does nothing while the
  -- retry interval lasts.
  pub resize_state_backoff :
      (state : AutoscaleSession) (latest : Pod) (c : Controller) (w later : World) (error : String)
      → (update_resize (resized_pod state latest) w).1 ≡ some error
      → now later < now (update_resize (resized_pod state latest) w).0 + interval_of c
      → let c' = (send_resize api state latest c w).controller in
        resize_state api state c' later
        ≡ record { world = later; controller = c'; outcome = skipped }
  resize_state_backoff state latest c w later error e soon =
      let refused_at = now (update_resize (resized_pod state latest) w).0 in
      rw (send_resize_refused state latest c w error e) (
        resize_state_suppressed state _ later (
          ground (
            arith,
            retry_suppressed-record_failed_attempt state.session.uid state.session.uid
                (intent_of state refused_at) (intent_of state 0) (now later) c,
            eq_iff state.session.uid state.session.uid,
            eq_iff state.pod.uid state.pod.uid,
          )))

pub find-set_agent_resources :
    (r : Requirements) (name : String) (cs : List Container)
    → find (λ c. str_eq c.name name) (set_agent_resources r cs)
      ≡ elim (find (λ c. str_eq c.name name) cs) [
        | none ↦ none
        | some c ↦ some (if str_eq name agent_container_name then record c { resources = r } else c)
      ]
unfolding set_agent_resources
find-set_agent_resources r name [] = refl
find-set_agent_resources r name (c ∷ cs) = ground (
  arith,
  eq_iff c.name name,
  eq_iff c.name agent_container_name,
  eq_iff name agent_container_name,
  find-set_agent_resources r name cs,
)

-- The same containers, but for the resources of those with the Agent's name.
abbrev pub OnlyAgents : Requirements → List Container → List Container → Type 0
OnlyAgents r [] [] = Unit
OnlyAgents r (x ∷ xs) (y ∷ ys) =
    ((x ≡ y) ⊎ ((y.name ≡ agent_container_name) × (x ≡ record y { resources = r })))
    × OnlyAgents r xs ys
OnlyAgents r _ _ = ⊥

OnlyAgents-refl : (r : Requirements) (cs : List Container) → OnlyAgents r cs cs
OnlyAgents-refl r [] = tt
OnlyAgents-refl r (c ∷ cs) = (inl refl, OnlyAgents-refl r cs)

set_agent_resources-OnlyAgents :
    (r : Requirements) (cs : List Container) → OnlyAgents r (set_agent_resources r cs) cs
unfolding set_agent_resources
set_agent_resources-OnlyAgents r [] = tt
set_agent_resources-OnlyAgents r (c ∷ cs) = elim (Bool-cases (str_eq c.name agent_container_name)) [
  | inl e ↦ rw e (inr ((eq_iff c.name agent_container_name).0 e, refl), OnlyAgents-refl r cs)
  | inr e ↦ rw e (inl refl, set_agent_resources-OnlyAgents r cs)
]

-- The Pod that is sent is the latest Pod but for its containers, and these are the latest ones in
-- their order but for the resources of the Agent container: one CPU amount, within the policy's range,
-- as request and limit, and the session's memory as request and limit.
pub resized_pod-containers :
    (state : AutoscaleSession) (latest : Pod) (name : String)
    → (record (resized_pod state latest) { containers = latest.containers } ≡ latest)
      × OnlyAgents
          (equal_resources (target_of state) state.session.memory_request)
          (resized_pod state latest).containers
          latest.containers
      × (find_pod_container (resized_pod state latest) name
          ≡ elim (find_pod_container latest name) [
            | none ↦ none
            | some c ↦ some (
                if str_eq name agent_container_name
                then record c {
                  resources = equal_resources (target_of state) state.session.memory_request;
                }
                else c)
          ])
      × (policy.min_cpu_limit ≤ target_of state)
      × (target_of state ≤ policy.max_cpu_limit)
unfolding find_pod_container
resized_pod-containers state latest name = (
  refl,
  set_agent_resources-OnlyAgents _ latest.containers,
  find-set_agent_resources (equal_resources (target_of state) state.session.memory_request) name
      latest.containers,
  omega arith,
  omega arith,
)
