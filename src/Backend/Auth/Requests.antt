-- ===== src/Backend/Auth/Requests.antt =====
-- Every request of the authentication service keeps the table of refresh tokens consistent.
use bosun.Prelude.{
  ℕ, ◌≡◌, refl, sym, ◌∙◌, subst, List, ◌||◌, String, Bool, true, false, Option, none, some, str_eq,
  not, any,
}
use bosun.Prelude.Run.{Run, pure, ◌>>=◌}
use bosun.Backend.Auth.{
  AuthError, email_taken, user_not_found, refresh_token_not_found, internal, Result, ok, err, User,
  RefreshToken, Database, call, later_faults, create_user, get_user_by_email, update_password_hash,
  insert_refresh_token, get_refresh_token_by_hash, revoke_refresh_token_family, creating_user,
  user_of_email, updating_password_hash, inserting, token_of_hash,
}
use bosun.Backend.Auth.Service.{
  Library, Draws, RegisterResult, TokenResult, answer_or, on_error, refuse, bootstrap_admin,
  normalize_email, normalize_login_identifier, is_valid_password, registered, create_hashed,
  create_account, with_email, register, replacement, signed, minted, mint_and_store, in_new_family,
  issue_tokens, rehashed, with_checked, log_in_unless, log_in_as, not_bootstrapped,
  not_found_by_email, with_identifier, login, refresh, revoked_or, logout,
}
use bosun.Backend.Auth.Tokens.{live_in}
use bosun.Backend.Auth.Steps.{Reach, here, Reach-trans, IsConsistent, Reach-IsConsistent}
use bosun.Backend.Auth.Rotation.{
  Walks, Walks-bind, Walks-answer_or, call-Reach, call-rule, if-rule, revoke_family-Walks,
  inserting-Reach, refresh-Reach,
}

-- The family that a login opens has no live token yet.
abbrev pub IsOpened : Draws → List RefreshToken → Type 0
IsOpened draws rows = (family : String) → draws.family_id ≡ some family → live_in family rows ≡ 0

-- A program that leaves the table of tokens alone.
abbrev Rests : {A : Type 0} → Run Database A → Type 0
Rests m = (d : Database) → (m d).0.tokens ≡ d.tokens

call-Rests :
    {A : Type 0} (query : Database → Database × Result A)
    → ((d : Database) → (query d).0.tokens ≡ d.tokens)
    → Rests (call query)
call-Rests {A} query h d =
    call-rule {A = A} query d (λ (out : Database × Result A). out.0.tokens ≡ d.tokens)
      (h (record d { faults = later_faults d.faults })) refl
      (h (record d { faults = later_faults d.faults }))

Rests-bind :
    {A B : Type 0} (m : Run Database A) (k : A → Run Database B)
    → Rests m
    → ((a : A) → Rests (k a))
    → Rests (m >>= k)
Rests-bind m k hm hk d = hk (m d).1 (m d).0 ∙ hm d

Rests-answer_or :
    {A B : Type 0} (handle : AuthError → Run Database B) (after : A → Run Database B)
    → ((e : AuthError) → Rests (handle e))
    → ((a : A) → Rests (after a))
    → (r : Result A) → Rests (answer_or handle after r)
Rests-answer_or handle after hh ha (ok a) = ha a
Rests-answer_or handle after hh ha (err e) = hh e

creating_user-tokens :
    (to_lower : String → String) (id email hash : String) (d : Database)
    → (creating_user to_lower id email hash d).0.tokens ≡ d.tokens
creating_user-tokens to_lower id email hash d =
    if-rule {A = Database × Result User}
      (any (λ u. str_eq u.id id || str_eq (to_lower u.email) (to_lower email)) d.users) _ _
      (λ out. out.0.tokens ≡ d.tokens) (λ _. refl) (λ _. refl)

module _ (draws : Draws) where
  -- A program whose changes of the table of tokens are steps, if its family is new.
  abbrev Opens : {A : Type 0} → Run Database A → Type 0
  Opens m = (d : Database) → IsOpened draws d.tokens → Reach d.tokens (m d).0.tokens

  Opens-bind :
      {A B : Type 0} (m : Run Database A) (k : A → Run Database B)
      → Rests m
      → ((a : A) → Opens (k a))
      → Opens (m >>= k)
  Opens-bind m k hm hk d opened =
      subst (λ (rows : List RefreshToken). Reach rows ((m >>= k) d).0.tokens) (hm d)
        (hk (m d).1 (m d).0 (subst (IsOpened draws) (sym (hm d)) opened))

  Opens-answer_or :
      {A B : Type 0} (handle : AuthError → Run Database B) (after : A → Run Database B)
      → ((e : AuthError) → Opens (handle e))
      → ((a : A) → Opens (after a))
      → (r : Result A) → Opens (answer_or handle after r)
  Opens-answer_or handle after hh ha (ok a) = ha a
  Opens-answer_or handle after hh ha (err e) = hh e

  Opens-on_error :
      {A B : Type 0} (m : Run Database (Result A)) (handle : AuthError → Run Database B)
      (after : A → Run Database B)
      → Rests m
      → ((e : AuthError) → Opens (handle e))
      → ((a : A) → Opens (after a))
      → Opens (on_error m handle after)
  Opens-on_error m handle after hm hh ha =
      Opens-bind m (answer_or handle after) hm (Opens-answer_or handle after hh ha)

pub data Request : Type 0 where
  registering logging_in : String → String → Request
  refreshing logging_out : String → Request

module _ (lib : Library) (access_ttl refresh_ttl : ℕ) (draws : Draws) where
  -- The tables after a request.
  unfoldable pub serve : Request → Database → Database
  unfolding register login refresh logout
  serve (registering email password) d =
      (register lib access_ttl refresh_ttl draws email password d).0
  serve (logging_in identifier password) d =
      (login lib access_ttl refresh_ttl draws identifier password d).0
  serve (refreshing raw) d = (refresh lib access_ttl refresh_ttl draws raw d).0
  serve (logging_out raw) d = (logout lib raw d).0

  revoked_or-Walks : (e : AuthError) → Walks (revoked_or lib e)
  revoked_or-Walks refresh_token_not_found d = here
  revoked_or-Walks e d = here

  logout-Walks : (raw : String) → Walks (logout lib raw)
  unfolding logout get_refresh_token_by_hash
  logout-Walks raw d =
      if-rule {A = Run Database (Result Unit)} (str_eq raw "") _ _
        (λ m. Reach d.tokens (m d).0.tokens) (λ _. here)
        (λ _.
          Walks-bind (call (token_of_hash (lib.token_hash raw)))
            (answer_or (revoked_or lib) (λ rec. revoke_refresh_token_family rec.family_id))
            (λ d. call-Reach (token_of_hash (lib.token_hash raw)) d here)
            (Walks-answer_or (revoked_or lib) _ revoked_or-Walks
              (λ rec. revoke_family-Walks rec.family_id))
            d)

  create_hashed-Rests :
      (email : String) (hash id : Option String)
      → Rests (create_hashed lib access_ttl refresh_ttl draws email hash id)
  unfolding create_user
  create_hashed-Rests email none id d = refl
  create_hashed-Rests email (some hash) none d = refl
  create_hashed-Rests email (some hash) (some id) d =
      Rests-bind (call (creating_user lib.to_lower id email hash))
        (answer_or (refuse {A = RegisterResult}) (registered lib access_ttl refresh_ttl draws))
        (call-Rests (creating_user lib.to_lower id email hash)
          (creating_user-tokens lib.to_lower id email hash))
        (Rests-answer_or refuse (registered lib access_ttl refresh_ttl draws) (λ e d. refl)
          (λ user d. refl))
        d

  create_account-Rests :
      (email password : String)
      → Rests (create_account lib access_ttl refresh_ttl draws email password)
  unfolding create_account
  create_account-Rests email password d =
      if-rule {A = Run Database (Result RegisterResult)} (not (is_valid_password lib password)) _ _
        (λ m. (m d).0.tokens ≡ d.tokens) (λ _. refl)
        (λ _. create_hashed-Rests email (draws.hash_password password) draws.user_id d)

  with_email-Walks :
      (password : String) (r : Result String)
      → Walks (with_email lib access_ttl refresh_ttl draws password r)
  with_email-Walks password (err e) d = here
  with_email-Walks password (ok email) d =
      subst (λ (rows : List RefreshToken). Reach d.tokens rows)
        (sym (create_account-Rests email password d)) here

  minted-Reach :
      (user : User) (family : String) (raw id : Option String) (d : Database)
      → live_in family d.tokens ≡ 0
      → Reach d.tokens (minted lib access_ttl refresh_ttl draws user family none raw id d).0.tokens
  unfolding insert_refresh_token
  minted-Reach user family none id d opened = here
  minted-Reach user family (some raw) none d opened = here
  minted-Reach user family (some raw) (some id) d opened =
      let rec = replacement lib access_ttl refresh_ttl draws user family raw id in
      Reach-trans (call-Reach (inserting rec) d (inserting-Reach rec _ opened)) (
        Walks-answer_or (λ e. refuse {A = TokenResult} internal)
          (λ _. pure (signed lib access_ttl refresh_ttl draws user raw (draws.sign user.id)))
          (λ e d. here) (λ _ d. here) (call (inserting rec) d).1 (call (inserting rec) d).0)

  in_new_family-Opens :
      (user : User) (family : Option String)
      → draws.family_id ≡ family
      → Opens draws (in_new_family lib access_ttl refresh_ttl draws user family)
  unfolding mint_and_store
  in_new_family-Opens user none e d opened = here
  in_new_family-Opens user (some family) e d opened =
      minted-Reach user family draws.raw_token draws.token_id d (opened family e)

  issue_tokens-Opens :
      (user : User) → Opens draws (issue_tokens lib access_ttl refresh_ttl draws user)
  unfolding issue_tokens
  issue_tokens-Opens user = in_new_family-Opens user draws.family_id refl

  rehashed-Rests :
      (user : User) (hash : Option String)
      → Rests (rehashed lib access_ttl refresh_ttl draws user hash)
  unfolding update_password_hash
  rehashed-Rests user none d = refl
  rehashed-Rests user (some hash) d = call-Rests (updating_password_hash user.id hash) (λ d. refl) d

  with_checked-Opens :
      (user : User) (password : String) (o : Option Bool)
      → Opens draws (with_checked lib access_ttl refresh_ttl draws user password o)
  with_checked-Opens user password (some true) d opened =
      if-rule {A = Run Database (Result TokenResult)} (lib.needs_rehash user.password_hash) _ _
        (λ m. Reach d.tokens (m d).0.tokens)
        (λ _.
          Opens-bind draws
            (rehashed lib access_ttl refresh_ttl draws user (draws.hash_password password))
            (λ _. issue_tokens lib access_ttl refresh_ttl draws user)
            (rehashed-Rests user (draws.hash_password password)) (λ _. issue_tokens-Opens user) d
            opened)
        (λ _. issue_tokens-Opens user d opened)
  with_checked-Opens user password (some false) d opened = here
  with_checked-Opens user password none d opened = here

  log_in_unless-Opens :
      (password : String) (user : User) (o : Option ℕ)
      → Opens draws (log_in_unless lib access_ttl refresh_ttl draws password user o)
  log_in_unless-Opens password user (some t) d opened = here
  log_in_unless-Opens password user none d opened =
      with_checked-Opens user password (lib.verify_password password user.password_hash) d opened

  log_in_as-Opens :
      (password : String) (user : User)
      → Opens draws (log_in_as lib access_ttl refresh_ttl draws password user)
  unfolding log_in_as
  log_in_as-Opens password user = log_in_unless-Opens password user user.disabled_at

  get_user_by_email-Rests : (email : String) → Rests (get_user_by_email lib.to_lower email)
  unfolding get_user_by_email
  get_user_by_email-Rests email = call-Rests (user_of_email lib.to_lower email) (λ d. refl)

  not_bootstrapped-Opens :
      (password : String) (e : AuthError)
      → Opens draws (not_bootstrapped lib access_ttl refresh_ttl draws password e)
  not_bootstrapped-Opens password email_taken =
      Opens-on_error draws (get_user_by_email lib.to_lower bootstrap_admin) _ _
        (get_user_by_email-Rests bootstrap_admin) (λ e d opened. here) (log_in_as-Opens password)
  not_bootstrapped-Opens password e = λ d opened. here

  not_found_by_email-Opens :
      (email password : String) (e : AuthError)
      → Opens draws (not_found_by_email lib access_ttl refresh_ttl draws email password e)
  not_found_by_email-Opens email password user_not_found d opened =
      if-rule {A = Run Database (Result TokenResult)} (not (str_eq email bootstrap_admin)) _ _
        (λ m. Reach d.tokens (m d).0.tokens) (λ _. here)
        (λ _.
          Opens-on_error draws
            (create_account lib access_ttl refresh_ttl draws bootstrap_admin password)
            (not_bootstrapped lib access_ttl refresh_ttl draws password)
            (λ created. log_in_as lib access_ttl refresh_ttl draws password created.user)
            (create_account-Rests bootstrap_admin password) (not_bootstrapped-Opens password)
            (λ created. log_in_as-Opens password created.user) d opened)
  not_found_by_email-Opens email password e d opened = here

  with_identifier-Opens :
      (password : String) (r : Result String)
      → Opens draws (with_identifier lib access_ttl refresh_ttl draws password r)
  with_identifier-Opens password (err e) d opened = here
  with_identifier-Opens password (ok email) d opened =
      Opens-on_error draws (get_user_by_email lib.to_lower email)
        (not_found_by_email lib access_ttl refresh_ttl draws email password)
        (log_in_as lib access_ttl refresh_ttl draws password) (get_user_by_email-Rests email)
        (not_found_by_email-Opens email password) (log_in_as-Opens password) d opened

  serve-Reach :
      (q : Request) (d : Database)
      → IsConsistent d.tokens
      → IsOpened draws d.tokens
      → Reach d.tokens (serve q d).tokens
  unfolding serve register login
  serve-Reach (registering email password) d c opened =
      with_email-Walks password (normalize_email lib email) d
  serve-Reach (logging_in identifier password) d c opened =
      with_identifier-Opens password (normalize_login_identifier lib identifier) d opened
  serve-Reach (refreshing raw) d c opened = refresh-Reach lib access_ttl refresh_ttl draws raw d c
  serve-Reach (logging_out raw) d c opened = logout-Walks raw d

  -- A request changes the table of refresh tokens by the steps of the relation only, whatever the
  -- database refuses or loses, and leaves at most one row of each id and at most one live token in
  -- each family, if that was so before and the family that a login draws has no live token.
  pub serve-IsConsistent :
      (q : Request) (d : Database)
      → IsConsistent d.tokens
      → IsOpened draws d.tokens
      → Reach d.tokens (serve q d).tokens × IsConsistent (serve q d).tokens
  serve-IsConsistent q d c opened =
      let steps = serve-Reach q d c opened in (steps, Reach-IsConsistent steps c)
