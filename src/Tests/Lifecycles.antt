-- ===== src/Tests/Lifecycles.antt =====
-- Reconciles of small AgentSessions on a cluster that counts the calls.
use Prim.Native.String.append
use Prim.Native.String.{◌++◌, char_at}
use Prim.Native.Char.{code}
use bosun.Prelude.{
  ℕ, zero, suc, ◌+◌, ◌*◌, ◌≤◌, ◌<◌, ◌-◌, ◌^◌, ◌≡◌, refl, ap, String, true, false, Option, none,
  some, [], ◌∷◌, ◌==◌, if◌then◌else◌, str_eq, str_eq_of_eq, find, arith,
}
use bosun.Prelude.Dict.{lookup}
use bosun.Prelude.Run.{done}
use bosun.Lifecycle.{
  Session, want_hibernated, hibernating, application, ready, present, absent, accepted, Kube, Tools,
  Reconciler,
}
use bosun.Lifecycle.Checks.{belongs, session_labels, retry_attempt}
use bosun.Lifecycle.Phases.{stop, after, other, handle_transient, set_status, second, to_retrying}
use bosun.Lifecycle.Workload.{desired_pod, desired_claim}
use bosun.Lifecycle.Reconcile.{reconcile}
use bosun.Lifecycle.Effects.{pod_read, pod_deleted, traced}
use bosun.Lifecycle.Protocol.Whole.{Follows, reconcile-Follows}
use bosun.Lifecycle.Retries.{Ends, ReadsBack, retried, over_budget, counted, handle_transient-Ends}

-- A number as that many ones.
abbrev ones : ℕ → String
ones zero = String.[]
ones (suc n) = String.◌∷◌ "1" (ones n)

abbrev count_all : String → ℕ
count_all String.[] = 0
count_all (String.◌∷◌ c s) = suc (count_all s)

abbrev drop_prefix : String → String → Option String
drop_prefix s String.[] = some s
drop_prefix String.[] (String.◌∷◌ c p) = none
drop_prefix (String.◌∷◌ d s) (String.◌∷◌ c p) = if code c == code d then drop_prefix s p else none

abbrev cut : String → String → String
cut String.[] sep = String.[]
cut (String.◌∷◌ c s) sep =
    if code c == code (char_at sep 0) then String.[] else String.◌∷◌ c (cut s sep)

==-self : (n : ℕ) → n == n ≡ true
==-self n = ground arith

drop_prefix-append : (p s : String) → drop_prefix (p ++ s) p ≡ some s
drop_prefix-append String.[] s = rw (append.nil s)
drop_prefix-append (String.◌∷◌ c p) s =
    rw (append.cons c p s, ==-self (code c)) (drop_prefix-append p s)

cut-ones : (n : ℕ) (rest : String) → cut (ones n ++ "; " ++ rest) ";" ≡ ones n
cut-ones zero rest = rw (append.nil ("; " ++ rest), append.cons ";" " " rest)
cut-ones (suc n) rest =
    rw (append.cons "1" (ones n) ("; " ++ rest)) (ap (String.◌∷◌ "1") (cut-ones n rest))

count_all-ones : (n : ℕ) → count_all (ones n) ≡ n
count_all-ones zero = refl
count_all-ones (suc n) = ap suc (count_all-ones n)

abbrev toy : Tools
toy = record {
  sha256_hex = λ s. s;
  is_uuid_v7 = λ s. true;
  trim_space = λ s. s;
  without_prefix = drop_prefix;
  before_separator = cut;
  decimal = ones;
  atoi = count_all;
  parse_time = λ s. none;
  same_status = λ a b. false;
  set_condition = λ c cs. c ∷ cs;
  remove_condition = λ kind cs. cs;
  find_condition = λ kind cs. find (λ c. str_eq c.kind kind) cs;
  owner_error = λ s name. none;
}

toy-ReadsBack : ReadsBack toy
toy-ReadsBack = record {
  set_is_found = λ c cs. rw (str_eq_of_eq c.kind c.kind refl);
  prefix_is_taken = drop_prefix-append;
  decimals_are_separate = cut-ones;
  decimals_are_read = count_all-ones;
}

abbrev draining : Session
draining = record {
  namespace = "user-a";
  name = "sess-0190-sess";
  generation = 3;
  labels =
      ("app.kubernetes.io/managed-by", "bosun")
      ∷ ("bosun.io/user", "0190-user")
      ∷ ("bosun.io/session", "0190-sess")
      ∷ [];
  annotations = [];
  is_deleting = false;
  has_finalizer = true;
  session_id = "0190-sess";
  user_id = "0190-user";
  desired_state = want_hibernated;
  resume_nonce = "n1";
  runtime = "claude-code";
  provider_mode = "platform";
  credential_id = "";
  storage_policy = "local";
  idle_timeout_seconds = 600;
  active_deadline_seconds = 3600;
  priority_class_name = "bosun-normal";
  memory_request = 2 * 1_073_741_824;
  status = record {
    phase = hibernating;
    observed_generation = 3;
    observed_resume_nonce = "n0";
    node_name = "node-1";
    pod_name = "agent-0190-sess";
    pvc_name = "workspace-0190-sess";
    last_active_at = none;
    checkpoint = some (record {
      mode = application;
      state = ready;
      id = "n1";
      node_name = "node-1";
      created_at = some 5;
      size_bytes = 10;
      sha256 = "";
      agent_image_digest = "";
      reason = "";
    });
    conditions = [];
  };
}

abbrev settings : Reconciler
settings = record {
  agent_image = "agent";
  storage_class_name = "local";
  gateway_url = "http://gateway";
  egress_proxy_url = "http://egress";
  idle_scan_interval = 0;
  capacity_scheduling_enabled = false;
  has_quiescer = true;
  has_state_reader = true;
}

-- The Pod of `draining` runs; the world counts the writes.
abbrev cluster : Kube
cluster = record {
  World = ℕ;
  get_session = λ namespace name w. present draining;
  update_session = λ s w. (w + 1, accepted);
  update_status = λ s st w. (w + 1, accepted);
  get_pod =
      λ namespace name w. (w, present (desired_pod toy settings draining "workspace-0190-sess"));
  create_pod = λ pod w. (w + 1, accepted);
  delete_pod = λ pod grace w. (w + 1, accepted);
  get_claim = λ namespace name w. (w, present (desired_claim toy settings draining));
  create_claim = λ claim w. (w + 1, accepted);
  delete_claim = λ claim w. (w + 1, accepted);
  get_account = λ namespace name w. (w, absent);
  create_account = λ account w. (w + 1, accepted);
  delete_account = λ namespace name w. (w + 1, accepted);
  now = λ w. 1_000;
  quiesce = λ pod w. (
    w + 1,
    done (record { created_at = 7; size_bytes = 1; sha256 = ""; agent_image_digest = "" }),
  );
  read_state = λ pod w. none;
  backoff_steps = 4;
}

-- The manifest is ready, so the Pod is deleted; it was read just before.
draining_log :
    (reconcile toy (traced cluster) settings "user-a" "sess-0190-sess" (0, [])).0.1
    ≡ pod_deleted (desired_pod toy settings draining "workspace-0190-sess") accepted
      ∷ pod_read (present (desired_pod toy settings draining "workspace-0190-sess"))
      ∷ []
unfolding reconcile desired_pod belongs session_labels lookup
draining_log = refl

reconcile-Follows_example :
    Follows toy cluster settings
      (present draining)
      (reconcile toy (traced cluster) settings "user-a" "sess-0190-sess" (0, [])).0.1
reconcile-Follows_example = reconcile-Follows toy cluster settings "user-a" "sess-0190-sess" 0

-- Two failures are written to the status.
abbrev retrying : Session
retrying = record draining { status = retried toy draining ("b" ∷ "a" ∷ []) draining.status }

handle_transient-Ends_example :
    let o = (handle_transient toy cluster retrying (other "c") 0).1 in
    (10 ≤ 3 → Ends (set_status toy cluster retrying (over_budget toy retrying) 0).1 stop o)
    × (3 < 10
        → Ends
            (set_status toy cluster retrying (counted toy retrying (other "c")) 0).1
            (after (second * 2 ^ (3 - 1)))
            o)
    × (o.requeue_after ≤ 256 * second)
unfolding retry_attempt to_retrying
handle_transient-Ends_example =
    handle_transient-Ends toy toy-ReadsBack cluster retrying ("b" ∷ "a" ∷ []) draining.status
      (other "c") 0 refl refl
