-- ===== src/Backend/Auth/Service.antt =====
-- backend/internal/auth/service.go: registration, login, the rotation of refresh tokens, logout and
-- the current user. Errors of the database and of the random source are all `internal`; the calls of
-- the password check that only cost time are left out.
use Prim.Native.String.{len}
use bosun.Prelude.{
  ℕ, ◌+◌, ◌-◌, String, Bool, true, false, not, ◌&&◌, ◌||◌, Option, none, some, ◌∷◌, ltb, ◌==◌,
  str_eq, if◌then◌else◌,
}
use bosun.Prelude.Run.{Run, pure, ◌>>=◌}
use bosun.Backend.Auth.{
  AuthError, email_taken, user_not_found, refresh_token_not_found, invalid_credentials,
  refresh_expired, validation, internal, Result, ok, err, User, RefreshToken, Database, is_live,
  create_user, get_user_by_email, get_user_by_id, update_password_hash, insert_refresh_token,
  get_refresh_token_by_hash, rotate_refresh_token, revoke_refresh_token_family,
}

-- Functions of libraries.
pub record Library : Type 0 where
  pub trim_space : String → String
  pub to_lower : String → String
  pub equal_fold : String → String → Bool
  -- `strings.LastIndex`, if there is one, and `strings.Contains`.
  pub last_index : String → String → Option ℕ
  pub contains : String → String → Bool
  -- `HashRefreshToken`.
  pub token_hash : String → String
  -- `VerifyPassword`, which may fail, and `NeedsRehash`.
  pub verify_password : String → String → Option Bool
  pub needs_rehash : String → Bool

-- What one request reads from its clock and its random source, where that does not fail.
pub record Draws : Type 0 where
  pub now : ℕ
  pub now_at_mint : ℕ
  pub raw_token : Option String
  pub token_id : Option String
  pub family_id : Option String
  pub user_id : Option String
  -- `HashPassword` with the salt of this request, and `issuer.Sign`.
  pub hash_password : String → Option String
  pub sign : String → Option String

pub record RegisterResult : Type 0 where
  pub user : User
  pub environment_phase : String

pub record TokenResult : Type 0 where
  pub user : User
  pub access_token : String
  pub access_expires_at : ℕ
  pub refresh_token : String
  pub refresh_expires_at : ℕ

abbrev pub bootstrap_admin : String
bootstrap_admin = "admin"

-- `if err != nil { return nil, handle(err) }`, and what follows.
abbrev pub answer_or :
    {A B : Type 0} → (AuthError → Run Database B) → (A → Run Database B) → Result A → Run Database B
answer_or handle next (ok a) = next a
answer_or handle next (err e) = handle e

abbrev pub on_error :
    {A B : Type 0}
    → Run Database (Result A)
    → (AuthError → Run Database B)
    → (A → Run Database B)
    → Run Database B
on_error m handle next = m >>= answer_or handle next

abbrev pub refuse : {A : Type 0} → AuthError → Run Database (Result A)
refuse e = pure (err e)

-- The error of a lookup, where the row is missing and else.
abbrev pub unless_missing : AuthError → AuthError
unless_missing user_not_found = invalid_credentials
unless_missing refresh_token_not_found = invalid_credentials
unless_missing _ = internal

module _ (lib : Library) where
  open lib use {
    trim_space, to_lower, equal_fold, last_index, contains, token_hash, verify_password,
    needs_rehash,
  }

  abbrev pub has_format : String → Option ℕ → Bool
  has_format email none = false
  has_format email (some at) = ltb 0 at && not (at == (len email - 1)) && not (contains email " ")

  unfoldable pub normalize_email : String → Result String
  normalize_email email =
      let trimmed = trim_space email in
      if ltb (len trimmed) 3 || ltb 254 (len trimmed)
      then err validation
      else if not (has_format trimmed (last_index trimmed "@"))
      then err validation
      else ok (to_lower trimmed)

  unfoldable pub normalize_login_identifier : String → Result String
  unfolding normalize_email
  normalize_login_identifier identifier =
      let trimmed = trim_space identifier in
      if equal_fold trimmed bootstrap_admin then ok bootstrap_admin else normalize_email trimmed

  abbrev pub is_valid_password : String → Bool
  is_valid_password password = not (ltb (len password) 8 || ltb 200 (len password))

  module _ (access_ttl refresh_ttl : ℕ) (draws : Draws) where
    open draws use {now, now_at_mint, raw_token, token_id, family_id, user_id, hash_password, sign}

    -- `env.Ensure`, whose error is only logged.
    abbrev pub ensure_environment : String → Run Database Unit
    ensure_environment id d = (record d { ensured = id ∷ d.ensured }, tt)

    abbrev pub registered : User → Run Database (Result RegisterResult)
    registered user = ensure_environment user.id >>= λ _.
        pure (ok (record { user = user; environment_phase = "Pending" }))

    abbrev pub create_hashed :
        String → Option String → Option String → Run Database (Result RegisterResult)
    create_hashed email none id = refuse internal
    create_hashed email (some hash) none = refuse internal
    create_hashed email (some hash) (some id) =
        on_error (create_user to_lower id email hash) refuse registered

    unfoldable pub create_account : String → String → Run Database (Result RegisterResult)
    unfolding create_user
    create_account email password =
        if not (is_valid_password password)
        then refuse validation
        else create_hashed email (hash_password password) user_id

    abbrev pub with_email : String → Result String → Run Database (Result RegisterResult)
    with_email password (err e) = refuse e
    with_email password (ok email) = create_account email password

    unfoldable pub register : String → String → Run Database (Result RegisterResult)
    unfolding normalize_email create_account
    register email password = with_email password (normalize_email email)

    abbrev pub signed : User → String → Option String → Result TokenResult
    signed user raw none = err internal
    signed user raw (some access) = ok (record {
      user = user;
      access_token = access;
      access_expires_at = now_at_mint + access_ttl;
      refresh_token = raw;
      refresh_expires_at = now_at_mint + refresh_ttl;
    })

    abbrev pub replacement : User → String → String → String → RefreshToken
    replacement user family raw id = record {
      id = id;
      user_id = user.id;
      family_id = family;
      token_hash = token_hash raw;
      expires_at = now_at_mint + refresh_ttl;
      revoked_at = none;
      replaced_by = none;
    }

    abbrev pub after_rotation : User → String → String → Bool → Run Database (Result TokenResult)
    after_rotation user family raw true = pure (signed user raw (sign user.id))
    after_rotation user family raw false =
        revoke_refresh_token_family family >>= λ _. refuse invalid_credentials

    abbrev pub store_token :
        User → String → Option RefreshToken → String → String → Run Database (Result TokenResult)
    store_token user family (some old) raw id =
        on_error (rotate_refresh_token old.id (replacement user family raw id))
          (λ e. refuse internal) (after_rotation user family raw)
    store_token user family none raw id =
        on_error (insert_refresh_token (replacement user family raw id)) (λ e. refuse internal)
          (λ _. pure (signed user raw (sign user.id)))

    abbrev pub minted :
        User
        → String
        → Option RefreshToken
        → Option String
        → Option String
        → Run Database (Result TokenResult)
    minted user family old none id = refuse internal
    minted user family old (some raw) none = refuse internal
    minted user family old (some raw) (some id) = store_token user family old raw id

    unfoldable pub mint_and_store :
        User → String → Option RefreshToken → Run Database (Result TokenResult)
    unfolding insert_refresh_token rotate_refresh_token revoke_refresh_token_family
    mint_and_store user family old = minted user family old raw_token token_id

    abbrev pub in_new_family : User → Option String → Run Database (Result TokenResult)
    in_new_family user none = refuse internal
    in_new_family user (some family) = mint_and_store user family none

    unfoldable pub issue_tokens : User → Run Database (Result TokenResult)
    unfolding mint_and_store
    issue_tokens user = in_new_family user family_id

    abbrev pub rehashed : User → Option String → Run Database Unit
    rehashed user none = pure tt
    rehashed user (some hash) = update_password_hash user.id hash >>= λ _. pure tt

    abbrev pub with_checked : User → String → Option Bool → Run Database (Result TokenResult)
    with_checked user password (some true) =
        if needs_rehash user.password_hash
        then (rehashed user (hash_password password) >>= λ _. issue_tokens user)
        else issue_tokens user
    with_checked user password _ = refuse invalid_credentials

    -- With the time at which the user was disabled, if any.
    abbrev pub log_in_unless : String → User → Option ℕ → Run Database (Result TokenResult)
    log_in_unless password user (some t) = refuse invalid_credentials
    log_in_unless password user none =
        with_checked user password (verify_password password user.password_hash)

    unfoldable pub log_in_as : String → User → Run Database (Result TokenResult)
    unfolding issue_tokens update_password_hash
    log_in_as password user = log_in_unless password user user.disabled_at

    -- The errors of `createUser` for the name that is created at its first login.
    abbrev pub not_bootstrapped : String → AuthError → Run Database (Result TokenResult)
    not_bootstrapped password email_taken =
        on_error (get_user_by_email to_lower bootstrap_admin) (λ e. refuse internal)
          (log_in_as password)
    not_bootstrapped password validation = refuse invalid_credentials
    not_bootstrapped password _ = refuse internal

    abbrev pub not_found_by_email : String → String → AuthError → Run Database (Result TokenResult)
    not_found_by_email email password user_not_found =
        if not (str_eq email bootstrap_admin)
        then refuse invalid_credentials
        else on_error (create_account bootstrap_admin password) (not_bootstrapped password)
            (λ created. log_in_as password created.user)
    not_found_by_email email password _ = refuse internal

    abbrev pub with_identifier : String → Result String → Run Database (Result TokenResult)
    with_identifier password (err e) = refuse invalid_credentials
    with_identifier password (ok email) =
        on_error (get_user_by_email to_lower email) (not_found_by_email email password)
          (log_in_as password)

    unfoldable pub login : String → String → Run Database (Result TokenResult)
    unfolding normalize_login_identifier get_user_by_email create_account log_in_as
    login identifier password = with_identifier password (normalize_login_identifier identifier)

    abbrev pub refresh_live : RefreshToken → Run Database (Result TokenResult)
    refresh_live rec =
        if not (ltb now rec.expires_at)
        then refuse refresh_expired
        else on_error (get_user_by_id rec.user_id) (λ e. refuse (unless_missing e))
            (λ user. mint_and_store user rec.family_id (some rec))

    abbrev pub refresh_found : RefreshToken → Run Database (Result TokenResult)
    refresh_found rec =
        if is_live rec
        then refresh_live rec
        else (revoke_refresh_token_family rec.family_id >>= λ _. refuse invalid_credentials)

    unfoldable pub refresh : String → Run Database (Result TokenResult)
    unfolding get_refresh_token_by_hash revoke_refresh_token_family get_user_by_id mint_and_store
    refresh raw =
        if str_eq raw ""
        then refuse invalid_credentials
        else on_error (get_refresh_token_by_hash (token_hash raw)) (λ e. refuse (unless_missing e))
            refresh_found

  abbrev pub revoked_or : AuthError → Run Database (Result Unit)
  revoked_or refresh_token_not_found = pure (ok tt)
  revoked_or _ = refuse internal

  unfoldable pub logout : String → Run Database (Result Unit)
  unfolding get_refresh_token_by_hash revoke_refresh_token_family
  logout raw =
      if str_eq raw ""
      then pure (ok tt)
      else on_error (get_refresh_token_by_hash (token_hash raw)) revoked_or
          (λ rec. revoke_refresh_token_family rec.family_id)

abbrev pub known_phase : Option String → String
known_phase none = "Pending"
known_phase (some phase) = phase

-- `phase` is the answer of `env.Phase`, if it has one.
unfoldable pub me : (String → Option String) → String → Run Database (Result RegisterResult)
unfolding get_user_by_id
me phase id =
    on_error (get_user_by_id id) (λ e. refuse (unless_missing e))
      (λ user. pure (ok (record { user = user; environment_phase = known_phase (phase user.id) })))
