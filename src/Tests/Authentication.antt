-- ===== src/Tests/Authentication.antt =====
-- Requests of the authentication service on small tables.
use Prim.Native.String.{◌++◌}
use bosun.Prelude.{◌≡◌, ◌≢◌, refl, String, false, none, some, [], ◌∷◌, str_eq, arith}
use bosun.Backend.Auth.{invalid_credentials, ok, err, User, RefreshToken, Database}
use bosun.Backend.Auth.Service.{Library, Draws, TokenResult, refresh}
use bosun.Backend.Auth.Tokens.{live_in}
use bosun.Backend.Auth.Steps.{Reach, here, IsConsistent}
use bosun.Backend.Auth.Requests.{logging_in, serve, serve-IsConsistent}
use bosun.Backend.Auth.Reuse.{refresh-reused, refresh_once}

abbrev plain : Library
plain = record {
  trim_space = λ s. s;
  to_lower = λ s. s;
  equal_fold = str_eq;
  last_index = λ s sep. some 3;
  contains = λ s sep. false;
  token_hash = λ s. "hash of " ++ s;
  verify_password = λ password hash. some (str_eq password hash);
  needs_rehash = λ hash. false;
}

abbrev draws_of : String → Draws
draws_of name = record {
  now = 100;
  now_at_mint = 101;
  raw_token = some ("raw " ++ name);
  token_id = some ("id " ++ name);
  family_id = some ("family " ++ name);
  user_id = some ("user " ++ name);
  hash_password = λ password. some password;
  sign = λ id. some ("access of " ++ id);
}

abbrev ada : User
ada = record {
  id = "ada";
  email = "ada@x";
  password_hash = "secret-1";
  created_at = 1;
  disabled_at = none;
}

abbrev first_token : RefreshToken
first_token = record {
  id = "id 0";
  user_id = "ada";
  family_id = "family 0";
  token_hash = "hash of raw 0";
  expires_at = 500;
  revoked_at = none;
  replaced_by = none;
}

abbrev fresh : Database
fresh = record { users = ada ∷ []; tokens = []; time = 100; faults = []; ensured = [] }

abbrev logged_in : Database
logged_in = record fresh { tokens = first_token ∷ [] }

abbrev first_result : TokenResult
first_result = record {
  user = ada;
  access_token = "access of ada";
  access_expires_at = 111;
  refresh_token = "raw 1";
  refresh_expires_at = 121;
}

refresh_succeeds : (refresh plain 10 20 (draws_of "1") "raw 0" logged_in).1 ≡ ok first_result
unfolding refresh
refresh_succeeds = refl

-- A refresh of a user who was disabled after the login.
refresh_of_disabled :
    (refresh plain 10 20
      (draws_of "1")
      "raw 0"
      (record logged_in { users = record ada { disabled_at = some 50 } ∷ [] })).1
    ≡ ok (record first_result { user = record ada { disabled_at = some 50 } })
unfolding refresh
refresh_of_disabled = refl

serve-IsConsistent_example :
    Reach [] (serve plain 10 20 (draws_of "1") (logging_in "ada@x" "secret-1") fresh).tokens
    × IsConsistent (serve plain 10 20 (draws_of "1") (logging_in "ada@x" "secret-1") fresh).tokens
serve-IsConsistent_example =
    serve-IsConsistent plain 10 20 (draws_of "1") (logging_in "ada@x" "secret-1") fresh
      (record { keyed = λ id. omega arith; single = λ family. omega arith }) (λ family e. refl)

refresh-reused_example :
    let out =
      refresh plain 10 20
        (draws_of "1")
        "raw 0"
        (record fresh { tokens = record first_token { revoked_at = some 90 } ∷ [] }) in
    (out.1 ≡ err invalid_credentials) × (live_in "family 0" out.0.tokens ≡ 0)
refresh-reused_example =
    refresh-reused plain 10 20 (draws_of "1") "raw 0"
      (record fresh { tokens = record first_token { revoked_at = some 90 } ∷ [] })
      (record first_token { revoked_at = some 90 }) refl refl refl

refresh_once_example :
    (refresh plain 10 20
      (draws_of "2")
      "raw 0"
      (refresh plain 10 20 (draws_of "1") "raw 0" logged_in).0).1
    ≢ ok first_result
refresh_once_example =
    refresh_once plain 10 20 (draws_of "1") (draws_of "2") "raw 0" logged_in
      (refresh plain 10 20 (draws_of "1") "raw 0" logged_in).0 first_result first_result
      refresh_succeeds here
