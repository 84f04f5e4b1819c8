-- ===== src/Lifecycle/Retries.antt =====
-- operator/internal/controller/agentsession_controller.go: the budget of the retries, which is kept in
-- the text of a condition.
use Prim.Native.String.{◌++◌}
use native.Mathlib.Nat.{pow-le-pow_right, min-le_right}
use bosun.Prelude.{
  ℕ, ◌+◌, ◌*◌, ◌^◌, ◌≤◌, ◌<◌, ◌≡◌, inl, inr, ◌-◌, refl, ◌∙◌, ap, String, true, false, some, List,
  [], ◌∷◌, length, leb, le→leb, leb→le, Bool-cases, subst, min, ◌==◌, arith,
}
use bosun.Prelude.Run.{Run, Failure, Reply, done, broke, pure, go_on, on_failure}
use bosun.Lifecycle.{Session, Status, SessionCondition, Kube, Tools, Outcome}
use bosun.Lifecycle.Checks.{retry_condition, retry_attempt, safe_message, attempt_in}
use bosun.Lifecycle.Phases.{
  stop, report, second, after, fails, to_retrying, to_failed, fail, handle_transient, set_status,
  retry_delay,
}

-- What is documented of `meta.SetStatusCondition`, `meta.FindStatusCondition`, `strings` and `strconv`:
-- a condition that was set is found again, a prefix is taken off, the text before the first
-- separator is returned, and a number is read back from its decimals.
pub record ReadsBack (tools : Tools) : Type 0 where
  pub set_is_found :
      (c : SessionCondition) (cs : List SessionCondition)
      → tools.find_condition c.kind (tools.set_condition c cs) ≡ some c
  pub prefix_is_taken :
      (prefix rest : String) → tools.without_prefix (prefix ++ rest) prefix ≡ some rest
  pub decimals_are_separate :
      (n : ℕ) (rest : String)
      → tools.before_separator (tools.decimal n ++ "; " ++ rest) ";" ≡ tools.decimal n
  pub decimals_are_read : (n : ℕ) → tools.atoi (tools.decimal n) ≡ n

-- The outcome where the write of the status was answered well, and otherwise an error.
abbrev pub Ends : Reply Unit → Outcome → Outcome → Type 0
Ends (done u) expected o = o ≡ expected
Ends (broke f) expected o = (text : String) × (o ≡ fails text)

replied :
    {W : Type 0} (text : Failure → String) (expected : Outcome) (m : Run W (Reply Unit)) (w : W)
    → Ends (m w).1 expected (on_failure m (λ f. pure (fails (text f))) (λ _. pure expected) w).1
replied {W} text expected m w = by_reply (m w).1
  where
    by_reply :
        (a : Reply Unit)
        → Ends a expected
            (go_on (λ f. pure {W = W} (fails (text f))) (λ _. pure expected) a (m w).0).1
    by_reply (done x) = refl
    by_reply (broke f) = (text f, refl)

==-refl : (n : ℕ) → n == n ≡ true
==-refl n = ground arith

lt→not_leb : (m n : ℕ) → m < n → leb n m ≡ false
lt→not_leb m n h = ground arith

Ends-requeue_le :
    (a : Reply Unit) (delay bound : ℕ) (o : Outcome)
    → delay ≤ bound
    → Ends a (after delay) o
    → o.requeue_after ≤ bound
Ends-requeue_le (done u) delay bound o h e = rw e h
Ends-requeue_le (broke f) delay bound o h (text, e) = rw e (omega arith)

module _ (tools : Tools) where
  -- The status after transient failures with these causes, the last one first.
  abbrev pub retried : Session → List String → Status → Status
  retried s [] st = st
  retried s (cause ∷ causes) st =
      let before = retried s causes st in
      to_retrying tools s (retry_attempt tools before.conditions s.generation + 1) cause before

  -- The failure that ends the retries, and the condition that counts one more.
  abbrev pub over_budget : Session → Status → Status
  over_budget s = to_failed tools s "RetryBudgetExceeded" (
      "Reconciliation failed after "
      ++ tools.decimal (retry_attempt tools s.status.conditions s.generation + 1)
      ++ " attempts")

  abbrev pub counted : Session → Failure → Status → Status
  counted s cause =
      to_retrying tools s (retry_attempt tools s.status.conditions s.generation + 1) cause.text

  handle_transient-over :
      (kube : Kube) (s : Session) (cause : Failure) (w : kube.World)
      → 10 ≤ retry_attempt tools s.status.conditions s.generation + 1
      → Ends
          (set_status tools kube s (over_budget s) w).1
          stop
          (handle_transient tools kube s cause w).1
  unfolding handle_transient fail report
  handle_transient-over kube s cause w h =
      rw (le→leb _ _ h) (replied (λ f. f.text) stop (set_status tools kube s (over_budget s)) w)

  handle_transient-under :
      (kube : Kube) (s : Session) (cause : Failure) (w : kube.World)
      → let n = retry_attempt tools s.status.conditions s.generation + 1 in
        n < 10
        → Ends
            (set_status tools kube s (counted s cause) w).1
            (after (retry_delay tools kube n))
            (handle_transient tools kube s cause w).1
  unfolding handle_transient
  handle_transient-under kube s cause w h = rw (lt→not_leb _ _ h) (
      replied (λ f. cause.text ++ "\n" ++ f.text)
        (after (retry_delay tools kube (retry_attempt tools s.status.conditions s.generation + 1)))
        (set_status tools kube s (counted s cause)) w)

  delay_le : (kube : Kube) (n : ℕ) → retry_delay tools kube n ≤ 256 * second
  delay_le kube n =
      let small =
        pow-le-pow_right {n = 2} (omega arith) {i = min (n - 1) 8} {j = 8}
          (min-le_right (n - 1) 8) in
      omega (arith, small)

module _ (tools : Tools) (back : ReadsBack tools) where
  open back use {set_is_found, prefix_is_taken, decimals_are_separate, decimals_are_read}

  attempt_in-message :
      (n : ℕ) (text : String) → attempt_in tools ("attempt=" ++ tools.decimal n ++ "; " ++ text) ≡ n
  unfolding attempt_in
  attempt_in-message n text =
      rw (prefix_is_taken "attempt=" (tools.decimal n ++ "; " ++ text), attempt_in)
        (rw (decimals_are_separate n text) (decimals_are_read n))

  retry_attempt-to_retrying :
      (s : Session) (n : ℕ) (cause : String) (st : Status)
      → retry_attempt tools (to_retrying tools s n cause st).conditions s.generation ≡ n
  unfolding retry_attempt to_retrying
  retry_attempt-to_retrying s n cause st =
      rw
        (
          set_is_found
              (record {
                kind = retry_condition;
                status = "True";
                observed_generation = s.generation;
                reason = "TransientError";
                message = "attempt=" ++ tools.decimal n ++ "; " ++ safe_message tools cause;
              })
              st.conditions,
          retry_attempt,
        )
        (rw (==-refl s.generation) (attempt_in-message n (safe_message tools cause)))

  retry_attempt-retried :
      (s : Session) (causes : List String) (st : Status)
      → retry_attempt tools st.conditions s.generation ≡ 0
      → retry_attempt tools (retried tools s causes st).conditions s.generation ≡ length causes
  retry_attempt-retried s [] st h = h
  retry_attempt-retried s (cause ∷ causes) st h =
      retry_attempt-to_retrying s _ cause (retried tools s causes st)
      ∙ omega (arith, retry_attempt-retried s causes st h)

  delay_exact :
      (kube : Kube) (attempt n : ℕ)
      → attempt ≡ n
      → n + 1 < 10
      → retry_delay tools kube (attempt + 1) ≡ second * 2 ^ (n + 1 - 1)
  delay_exact kube attempt n e h = ap (λ (m : ℕ). second * 2 ^ m) (ground arith)

  -- A session whose retry condition was written by `causes` transient failures in a row, none of
  -- them before: the next one is the n-th. From the tenth on the session is reported as failed and no
  -- further reconcile is asked for; before it, one more failure is counted and the next reconcile is
  -- asked for after 2 ^ (n - 1) seconds, which are at most 256. Only if that write of the status is
  -- not answered well, an error is returned instead.
  pub handle_transient-Ends :
      (kube : Kube) (s : Session) (causes : List String) (st : Status) (cause : Failure)
      (w : kube.World)
      → retry_attempt tools st.conditions s.generation ≡ 0
      → s.status ≡ retried tools s causes st
      → let n = length causes + 1 in
        let o = (handle_transient tools kube s cause w).1 in
        (10 ≤ n → Ends (set_status tools kube s (over_budget tools s) w).1 stop o)
        × (n < 10
            → Ends
                (set_status tools kube s (counted tools s cause) w).1
                (after (second * 2 ^ (n - 1)))
                o)
        × (o.requeue_after ≤ 256 * second)
  handle_transient-Ends kube s causes st cause w h e =
      let k =
        ap (λ (t : Status). retry_attempt tools t.conditions s.generation) e
        ∙ retry_attempt-retried s causes st h in
      let n = length causes + 1 in
      let o = (handle_transient tools kube s cause w).1 in
      let failing = (set_status tools kube s (over_budget tools s) w).1 in
      let counting = (set_status tools kube s (counted tools s cause) w).1 in
      let over : 10 ≤ n → Ends failing stop o =
        λ m. handle_transient-over tools kube s cause w (omega (arith, k)) in
      let under : n < 10 → Ends counting (after (second * 2 ^ (n - 1))) o = λ m.
        subst (λ (d : ℕ). Ends counting (after d) o) (delay_exact kube _ _ k m)
          (handle_transient-under tools kube s cause w (omega (arith, k))) in
      (
        over,
        under,
        elim (Bool-cases (leb 10 n)) [
          | inl b ↦ Ends-requeue_le failing 0 _ o (omega arith) (over (leb→le _ _ b))
          | inr b ↦
              Ends-requeue_le counting (second * 2 ^ (n - 1)) _ o
                (rw (← (delay_exact kube _ _ k (ground arith))) (delay_le tools kube _))
                (under (ground arith))
        ],
      )
