-- ===== src/Autoscaler/Resize/Effect.antt =====
-- What `resizeState` does to the CPU limits of a cluster, whatever it reports.
use bosun.Prelude.{
  Option-cases, ℕ, zero, suc, ◌≡◌, refl, ap, subst, ◌∙◌, ◌⊎◌, inl, inr, String, Bool, true, false,
  Option, none, some, if◌then◌else◌, Bool-cases,
}
use bosun.Prelude.Dict.{Dict, insert}
use bosun.Cluster.{
  AgentSession, Pod, Container, ResourceScalingStatus, agent_container_name, find_pod_container,
}
use bosun.Autoscaler.Plan.{AutoscaleSession}
use bosun.Autoscaler.Controller.{
  Api, Written, written, conflict, rejected, Controller, same_scaling, scaling_or_default,
  update_scaling_from, update_scaling_status, record_scaling_error,
}
use bosun.Autoscaler.Resize.{
  Outcome, is_applied, target_of, equal_resources, resized_pod, send_resize, resize_state,
}
use bosun.Autoscaler.Resize.Guards.{
  Fetched-cases, SameAgents, resize_state-IsGuarded, find-set_agent_resources,
}

-- The limits with the new one of a session, or as they were.
abbrev pub set_if : Bool → String → ℕ → Dict ℕ → Dict ℕ
set_if b key cpu limits = if b then insert key cpu limits else limits

-- What is documented of the Kubernetes API: the write of a status changes no limit, and the update of a
-- Pod's resources sets the CPU limit of its Agent container, or changes none; one that returns no error
-- sets it. A limit has the key of the session that the Pod belongs to.
pub record IsCluster (api : Api) (limits : api.World → Dict ℕ) (key_of : String → String)
    : Type 0 where
  pub status_keeps :
      (s : AgentSession) (w : api.World) → limits (api.update_status s w).0 ≡ limits w
  pub resize_sets :
      (p : Pod) (c : Container) (w : api.World)
      → find_pod_container p agent_container_name ≡ some c
      → (b : Bool) × (limits (api.update_resize p w).0
          ≡ set_if b (key_of p.uid) c.resources.limits.cpu (limits w))
        × ((api.update_resize p w).1 ≡ none → b ≡ true)

Written-cases : (a : Written) → (a ≡ written) ⊎ (a ≡ conflict) ⊎ (a ≡ rejected)
Written-cases written = inl refl
Written-cases conflict = inr (inl refl)
Written-cases rejected = inr (inr refl)

SameAgents-found : (x y : Option Container) → SameAgents x y → (c : Container) × (x ≡ some c)
SameAgents-found (some x) (some y) h = (x, refl)
SameAgents-found (some x) none h = elim h [ ]
SameAgents-found none y h = elim h [ ]

module _ (api : Api) (limits : api.World → Dict ℕ) (key_of : String → String)
    (cluster : IsCluster api limits key_of) where
  open api use {World, get_session, update_status, update_resize}
  open cluster use {status_keeps, resize_sets}

  update_scaling_from-limits :
      (n : ℕ) (namespace name : String) (mutate : ResourceScalingStatus → ResourceScalingStatus)
      (w : World)
      → limits (update_scaling_from api n namespace name mutate w).0 ≡ limits w
  unfolding update_scaling_from
  update_scaling_from-limits zero namespace name mutate w = refl
  update_scaling_from-limits (suc n) namespace name mutate w =
      let again = update_scaling_from-limits n namespace name mutate in
      elim (Fetched-cases (get_session namespace name w)) [
        | inl e ↦ rw (e, update_scaling_from) refl
        | inr (inl e) ↦ rw (e, update_scaling_from) refl
        | inr (inr (current, e)) ↦
            let desired = mutate (scaling_or_default current.resource_scaling) in
            let next : AgentSession = record current { resource_scaling = some desired } in
            rw (e, update_scaling_from)
              (elim (Bool-cases (same_scaling current.resource_scaling desired)) [
                | inl t ↦ rw t refl
                | inr t ↦ rw t (elim (Written-cases (update_status next w).1) [
                  | inl a ↦ rw a (status_keeps next w)
                  | inr (inl a) ↦ rw a (again (update_status next w).0 ∙ status_keeps next w)
                  | inr (inr a) ↦ rw a (status_keeps next w)
                ])
              ])
      ]

  update_scaling_status-limits :
      (s : AgentSession) (mutate : ResourceScalingStatus → ResourceScalingStatus) (w : World)
      → limits (update_scaling_status api s mutate w).0 ≡ limits w
  unfolding update_scaling_status
  update_scaling_status-limits s mutate w =
      update_scaling_from-limits api.backoff_steps s.namespace s.name mutate w

  record_scaling_error-limits :
      (s : AgentSession) (message : String) (w : World)
      → limits (record_scaling_error api s message w) ≡ limits w
  unfolding record_scaling_error
  record_scaling_error-limits s message w = update_scaling_status-limits s _ w

  -- The limit of the session is set or left, and it is set if the resize is reported as applied.
  abbrev pub MaySet : AutoscaleSession → World → World → Outcome → Type 0
  MaySet state w w' o =
      (b : Bool) × (limits w' ≡ set_if b state.key (target_of state) (limits w))
      × (is_applied o ≡ true → b ≡ true)

  send_resize-MaySet :
      (state : AutoscaleSession) (latest : Pod) (agent : Container) (c : Controller) (w : World)
      → key_of latest.uid ≡ state.key
      → find_pod_container latest agent_container_name ≡ some agent
      → let r = send_resize api state latest c w in MaySet state w r.world r.outcome
  unfolding send_resize find_pod_container
  send_resize-MaySet state latest agent c w named there =
      let r = equal_resources (target_of state) state.session.memory_request in
      let sent = resized_pod state latest in
      let found_agent =
        find-set_agent_resources r agent_container_name latest.containers ∙ rw there refl in
      let (b, e, done) = resize_sets sent (record agent { resources = r }) w found_agent in
      let e' =
        subst (λ k. limits (update_resize sent w).0 ≡ set_if b k (target_of state) (limits w)) named
          e in
      elim (Option-cases (update_resize sent w).1) [
        | inl ok ↦
            rw (ok, send_resize)
              (b, update_scaling_status-limits state.session _ _ ∙ e', λ _. done ok)
        | inr (text, error) ↦
            rw (error, send_resize) (b, record_scaling_error-limits state.session _ _ ∙ e', λ h. cc)
      ]

  pub resize_state-MaySet :
      (state : AutoscaleSession) (c : Controller) (w : World)
      → key_of state.pod.uid ≡ state.key
      → let r = resize_state api state c w in MaySet state w r.world r.outcome
  resize_state-MaySet state c w named = elim (resize_state-IsGuarded api state c w) [
    | inl (held, (kept, own, idle)) ↦ (false, ap limits kept, λ h. cc)
    | inr (latest, guarded, sent) ↦
        let (agent, there) = SameAgents-found _ _ guarded.unchanged.1 in
        rw sent
          (send_resize-MaySet state latest agent c w (ap key_of guarded.unchanged.0 ∙ named) there)
  ]
