-- ===== src/Backend/Auth/Reuse.antt =====
-- A refresh token serves once: what a successful refresh leaves behind, and what the service does when
-- the token is shown again.
use bosun.Prelude.{
  ℕ, ◌≡◌, ◌≢◌, refl, sym, ap, ◌∙◌, subst, String, Bool, true, false, not, ◌&&◌, Option, none, some,
  [], ◌∷◌, ltb, str_eq, str_eq_of_eq,
}
use bosun.Prelude.Run.{Run, ◌>>=◌}
use bosun.Backend.Auth.{
  AuthError, refresh_token_not_found, invalid_credentials, refresh_expired, internal, Result, ok,
  err, User, RefreshToken, Database, is_live, later_faults, one_or, find_hash, has_hash, is_refused,
  replace_row, rotated, committed, rotating, user_of_id, token_of_hash, get_user_by_id,
  revoke_refresh_token_family, rotate_refresh_token, get_refresh_token_by_hash,
}
use bosun.Backend.Auth.Service.{
  Library, Draws, TokenResult, answer_or, refuse, unless_missing, replacement, after_rotation,
  minted, mint_and_store, refresh_live, refresh_found, refresh,
}
use bosun.Backend.Auth.Tokens.{live_in, find_hash-map, replace_row-IsUpdate, live_in-revoke_row}
use bosun.Backend.Auth.Steps.{Reach, IsSpent, Reach-IsSpent, new-find_hash}
use bosun.Backend.Auth.Rotation.{call-rule, if-rule, not_refused, true-ne-false}

and_false : (a b : Bool) → a ≡ true → a && b ≡ false → b ≡ false
and_false true b h e = e
and_false false b h e = cc

replaced-dead :
    (time : ℕ) (by : String) (old : RefreshToken) → is_live (replace_row time old.id by old) ≡ false
replaced-dead time by old =
    if-rule {A = RefreshToken} (str_eq old.id old.id && is_live old) _ old (λ r. is_live r ≡ false)
      (λ _. refl) (λ e. and_false _ _ (str_eq_of_eq old.id old.id refl) e)

-- If the program succeeds, the token of that hash is spent.
abbrev Spends : String → Database × Result TokenResult → Type 0
Spends hash out = (r : TokenResult) → out.1 ≡ ok r → IsSpent hash out.0.tokens

fails-Spends : (hash : String) (d : Database) (e : AuthError) → Spends hash (d, err e)
fails-Spends hash d e r h = cc

module _ (lib : Library) (access_ttl refresh_ttl : ℕ) (draws : Draws) where
  rotated-Spends :
      (hash raw : String) (old rec : RefreshToken) (user : User) (d : Database)
      → find_hash hash d.tokens ≡ some old
      → has_hash rec.token_hash d.tokens ≡ false
      → (won : Bool)
      → let out = committed won (rotated d.time old.id rec d.tokens).0 d in
        Spends hash (
          answer_or
            (λ e. refuse internal)
            (after_rotation lib access_ttl refresh_ttl draws user old.family_id raw)
            out.1
            out.0)
  rotated-Spends hash raw old rec user d found fresh true r h = (
    replace_row d.time old.id rec.id old,
    find_hash-map (replace_row d.time old.id rec.id) (replace_row-IsUpdate d.time old.id rec.id)
        hash (rec ∷ d.tokens) old (new-find_hash hash rec d.tokens old fresh found),
    replaced-dead d.time rec.id old,
  )
  rotated-Spends hash raw old rec user d found fresh false r h = cc

  minted-Spends :
      (hash : String) (old : RefreshToken) (user : User) (raw id : Option String) (d : Database)
      → find_hash hash d.tokens ≡ some old
      → Spends hash (minted lib access_ttl refresh_ttl draws user old.family_id (some old) raw id d)
  unfolding rotate_refresh_token
  minted-Spends hash old user none id d found r h = cc
  minted-Spends hash old user (some raw) none d found r h = cc
  minted-Spends hash old user (some raw) (some id) d found r h =
      let rec = replacement lib access_ttl refresh_ttl draws user old.family_id raw id in
      let d' : Database = record d { faults = later_faults d.faults } in
      let after = λ (out : Database × Result Bool).
        answer_or (λ e. refuse {A = TokenResult} internal)
          (after_rotation lib access_ttl refresh_ttl draws user old.family_id raw) out.1 out.0 in
      call-rule (rotating old.id rec) d (λ out. Spends hash (after out))
        (if-rule {A = Database × Result Bool} (is_refused d.users d.tokens rec) _ _
          (λ out. Spends hash (after out)) (λ _. fails-Spends hash d' internal)
          (λ e.
            rotated-Spends hash raw old rec user d' found (not_refused d.users d.tokens rec e).1
              (rotated d.time old.id rec d.tokens).1))
        (fails-Spends hash d' internal) (fails-Spends hash (rotating old.id rec d').0 internal) r h

  with_user-Spends :
      (hash : String) (old : RefreshToken) (answer : Result User) (d : Database)
      → find_hash hash d.tokens ≡ some old
      → Spends hash (
          answer_or
            (λ e. refuse (unless_missing e))
            (λ user. mint_and_store lib access_ttl refresh_ttl draws user old.family_id (some old))
            answer
            d)
  unfolding mint_and_store
  with_user-Spends hash old (ok user) d found =
      minted-Spends hash old user draws.raw_token draws.token_id d found
  with_user-Spends hash old (err e) d found = fails-Spends hash d (unless_missing e)

  refresh_live-Spends :
      (hash : String) (old : RefreshToken) (d : Database)
      → find_hash hash d.tokens ≡ some old
      → Spends hash (refresh_live lib access_ttl refresh_ttl draws old d)
  unfolding get_user_by_id
  refresh_live-Spends hash old d found =
      let d' : Database = record d { faults = later_faults d.faults } in
      if-rule {A = Run Database (Result TokenResult)} (not (ltb draws.now old.expires_at)) _ _
        (λ m. Spends hash (m d)) (λ _. fails-Spends hash d refresh_expired)
        (λ _.
          call-rule (user_of_id old.user_id) d
            (λ out. Spends hash (
              answer_or (λ e. refuse (unless_missing e))
                (λ user.
                  mint_and_store lib access_ttl refresh_ttl draws user old.family_id (some old))
                out.1 out.0))
            (with_user-Spends hash old (user_of_id old.user_id d').1 d' found)
            (fails-Spends hash d' internal) (fails-Spends hash d' internal))

  with_token-Spends :
      (hash : String) (o : Option RefreshToken) (d : Database)
      → find_hash hash d.tokens ≡ o
      → Spends hash (
          answer_or
            (λ e. refuse (unless_missing e))
            (refresh_found lib access_ttl refresh_ttl draws)
            (one_or refresh_token_not_found o)
            d)
  with_token-Spends hash none d found = fails-Spends hash d invalid_credentials
  with_token-Spends hash (some old) d found =
      if-rule {A = Run Database (Result TokenResult)} (is_live old) _ _ (λ m. Spends hash (m d))
        (λ _. refresh_live-Spends hash old d found) (λ _ r h. cc)

  refresh-Spends :
      (raw : String) (d : Database)
      → Spends (lib.token_hash raw) (refresh lib access_ttl refresh_ttl draws raw d)
  unfolding refresh get_refresh_token_by_hash
  refresh-Spends raw d =
      let hash = lib.token_hash raw in
      let d' : Database = record d { faults = later_faults d.faults } in
      if-rule {A = Run Database (Result TokenResult)} (str_eq raw "") _ _ (λ m. Spends hash (m d))
        (λ _. fails-Spends hash d invalid_credentials)
        (λ _.
          call-rule (token_of_hash hash) d
            (λ out. Spends hash (
              answer_or (λ e. refuse (unless_missing e))
                (refresh_found lib access_ttl refresh_ttl draws) out.1 out.0))
            (with_token-Spends hash (find_hash hash d.tokens) d' refl)
            (fails-Spends hash d' internal) (fails-Spends hash d' internal))

  -- What the refresh does with a token that is not live.
  abbrev revoking : RefreshToken → Run Database (Result TokenResult)
  revoking old = revoke_refresh_token_family old.family_id >>= λ _. refuse invalid_credentials

  refresh_found-dead :
      (old : RefreshToken)
      → is_live old ≡ false
      → refresh_found lib access_ttl refresh_ttl draws old ≡ revoking old
  refresh_found-dead old dead =
      if-rule {A = Run Database (Result TokenResult)} (is_live old) _ _ (λ m. m ≡ revoking old)
        (λ live. absurd (true-ne-false live dead)) (λ _. refl)

  found_spent :
      (hash : String) (old : RefreshToken) (d : Database)
      → find_hash hash d.tokens ≡ some old
      → is_live old ≡ false
      → answer_or
          (λ e. refuse (unless_missing e))
          (refresh_found lib access_ttl refresh_ttl draws)
          (one_or refresh_token_not_found (find_hash hash d.tokens))
        ≡ revoking old
  found_spent hash old d found dead =
      ap
        (λ (o : Option RefreshToken).
          answer_or (λ e. refuse (unless_missing e))
            (refresh_found lib access_ttl refresh_ttl draws) (one_or refresh_token_not_found o))
        found
      ∙ refresh_found-dead old dead

  spent-fails :
      (raw : String) (d : Database) (r : TokenResult)
      → IsSpent (lib.token_hash raw) d.tokens
      → (refresh lib access_ttl refresh_ttl draws raw d).1 ≢ ok r
  unfolding refresh get_refresh_token_by_hash
  spent-fails raw d r (old, found, dead) =
      let hash = lib.token_hash raw in
      let d' : Database = record d { faults = later_faults d.faults } in
      if-rule {A = Run Database (Result TokenResult)} (str_eq raw "") _ _ (λ m. (m d).1 ≢ ok r)
        (λ _ h. cc)
        (λ _.
          call-rule (token_of_hash hash) d
            (λ out.
              (answer_or (λ e. refuse (unless_missing e))
                (refresh_found lib access_ttl refresh_ttl draws) out.1 out.0).1
              ≢ ok r)
            (subst (λ (m : Run Database (Result TokenResult)). (m d').1 ≢ ok r)
              (sym (found_spent hash old d' found dead)) (λ h. cc))
            (λ h. cc) (λ h. cc))

  -- A token that was rotated or revoked and is shown again is refused, and right after that request no
  -- token of its family is live, if the calls of the database work.
  pub refresh-reused :
      (raw : String) (d : Database) (old : RefreshToken)
      → str_eq raw "" ≡ false
      → find_hash (lib.token_hash raw) d.tokens ≡ some old
      → is_live old ≡ false
      → let out = refresh lib access_ttl refresh_ttl draws raw (record d { faults = [] }) in
        (out.1 ≡ err invalid_credentials) × (live_in old.family_id out.0.tokens ≡ 0)
  unfolding refresh get_refresh_token_by_hash revoke_refresh_token_family
  refresh-reused raw d old nonempty found dead =
      let d' : Database = record d { faults = [] } in
      rw nonempty (
        subst
          (λ (m : Run Database (Result TokenResult)).
            ((m d').1 ≡ err invalid_credentials) × (live_in old.family_id (m d').0.tokens ≡ 0))
          (sym (found_spent (lib.token_hash raw) old d' found dead))
          (refl, live_in-revoke_row d.time old.family_id d.tokens))

module _ (lib : Library) (access_ttl refresh_ttl : ℕ) (draws later : Draws) where
  -- A token with which a refresh succeeded serves no second time, whatever steps other requests
  -- make in between, and whatever the database answers.
  pub refresh_once :
      (raw : String) (d d' : Database) (first second : TokenResult)
      → (refresh lib access_ttl refresh_ttl draws raw d).1 ≡ ok first
      → Reach (refresh lib access_ttl refresh_ttl draws raw d).0.tokens d'.tokens
      → (refresh lib access_ttl refresh_ttl later raw d').1 ≢ ok second
  refresh_once raw d d' first second h steps =
      spent-fails lib access_ttl refresh_ttl later raw d' second (
        Reach-IsSpent (lib.token_hash raw) steps
          (refresh-Spends lib access_ttl refresh_ttl draws raw d first h))
