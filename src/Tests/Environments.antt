-- ===== src/Tests/Environments.antt =====
-- Reconciles of one user environment whose namespace is there already.
use bosun.Prelude.{ℕ, suc, refl, Bool, true, false, none, ◌≡◌, [], ◌∷◌, str_eq, if◌then◌else◌}
use bosun.Lifecycle.{present, absent, accepted}
use bosun.Lifecycle.Checks.{managed_by_label, managed_by_value, user_label}
use bosun.Lifecycle.Phases.{stop}
use bosun.Environment.{UserEnvironment, Object, namespace_spec, unset, ok, Client, Library}
use bosun.Environment.Baseline.{object_of, is_managed, validate_user_environment}
use bosun.Environment.Reconcile.{reconcile_environment}
use bosun.Environment.Protocol.{traced}
use bosun.Environment.Progress.{IsFree, IsWilling, IsFinished, reconcile_environment-IsFinished}
use bosun.Environment.Protocol.Whole.{Follows, reconcile_environment-Follows}

abbrev library : Library
library = record {
  sha256_hex = λ id. "0123456789abcdef";
  is_uuid_v7 = λ id. true;
  same_status = λ a b. false;
  set_condition = λ c cs. c ∷ [];
  owner_error = λ e o. none;
}

abbrev ada : UserEnvironment
ada = record {
  name = "usr-0123456789ab";
  generation = 1;
  labels = (managed_by_label, managed_by_value) ∷ (user_label, "ada") ∷ [];
  user_id = "ada";
  namespace = "bosun-u-0123456789ab";
  quota_profile = "mvp";
  status = record { phase = unset; observed_generation = 0; conditions = [] };
}

abbrev home : Object
home = record (object_of "" ada.namespace namespace_spec) { labels = ada.labels }

-- It counts the writes.
abbrev counting : Client
counting = record {
  World = ℕ;
  get_environment = λ name w. present ada;
  update_status = λ e new w. (suc w, accepted);
  get_object = λ o w. (w, if str_eq o.namespace "" then present home else absent);
  create_or_update = λ o mutate w. (suc w, ok tt);
  backoff_steps = 4;
}

reconcile_environment-counted :
    reconcile_environment library counting "platform" ada.name 0 ≡ (8, stop)
unfolding reconcile_environment bosun.Prelude.Dict.lookup
reconcile_environment-counted = refl

reconcile_environment-Follows_example :
    Follows library "platform"
      (present ada)
      (reconcile_environment library (traced counting) "platform" ada.name (0, [])).0.1
reconcile_environment-Follows_example =
    reconcile_environment-Follows library "platform" counting ada.name 0

home-IsFree : (b : Bool) → IsFree ada (if b then present home else absent)
unfolding is_managed bosun.Prelude.Dict.lookup
home-IsFree true = refl
home-IsFree false = tt

counting-IsWilling : IsWilling library counting ada
counting-IsWilling = record {
  tries = 3;
  steps = refl;
  keeps = λ w. refl;
  accepts = λ current new w. refl;
  finds = λ o w. home-IsFree (str_eq o.namespace "");
  ensures = λ item w. refl;
}

ada-valid : validate_user_environment library ada ≡ none
unfolding validate_user_environment bosun.Prelude.Dict.lookup
ada-valid = refl

reconcile_environment-IsFinished_example :
    IsFinished library "platform" counting ada counting-IsWilling
      (reconcile_environment library (traced counting) "platform" ada.name (0, [])).1
      (reconcile_environment library (traced counting) "platform" ada.name (0, [])).0.1
reconcile_environment-IsFinished_example =
    reconcile_environment-IsFinished library "platform" counting ada counting-IsWilling 0 refl
      ada-valid
