-- ===== src/Backend/Auth/Rotation.antt =====
-- The requests of the authentication service as steps of the table of refresh tokens, and that a
-- refresh token serves once.
use bosun.Prelude.{
  ℕ, ◌≡◌, refl, sym, subst, String, Bool, true, false, not, ◌&&◌, ◌||◌, Option, none, some, List,
  ◌∷◌, any, ltb, str_eq, if◌then◌else◌, All, arith, eq_iff,
}
use bosun.Prelude.Run.{Run, ◌>>=◌}
use bosun.Backend.Auth.{
  AuthError, refresh_token_not_found, invalid_credentials, internal, Result, ok, err, User,
  RefreshToken, Fault, works, refused, lost, Database, is_live, next_fault, later_faults, answered,
  call, one_or, has_hash, has_id, find_hash, is_refused, committed, rotated, get_user_by_id,
  user_of_id, inserting, token_of_hash, rotating, revoking_family, get_refresh_token_by_hash,
  rotate_refresh_token, revoke_refresh_token_family,
}
use bosun.Backend.Auth.Service.{
  Library, Draws, TokenResult, answer_or, refuse, unless_missing, replacement, after_rotation,
  minted, mint_and_store, refresh_live, refresh_found, refresh,
}
use bosun.Backend.Auth.Tokens.{live_in, find_hash-All_family, find_hash-has_id}
use bosun.Backend.Auth.Steps.{issue, rotate, revoke, Reach, here, next, Reach-trans, IsConsistent}

-- A program whose changes of the table of tokens are steps.
abbrev pub Walks : {A : Type 0} → Run Database A → Type 0
Walks m = (d : Database) → Reach d.tokens (m d).0.tokens

pub Walks-bind :
    {A B : Type 0} (m : Run Database A) (k : A → Run Database B)
    → Walks m
    → ((a : A) → Walks (k a))
    → Walks (m >>= k)
Walks-bind m k hm hk d = Reach-trans (hm d) (hk (m d).1 (m d).0)

pub Walks-answer_or :
    {A B : Type 0} (handle : AuthError → Run Database B) (after : A → Run Database B)
    → ((e : AuthError) → Walks (handle e))
    → ((a : A) → Walks (after a))
    → (r : Result A) → Walks (answer_or handle after r)
Walks-answer_or handle after hh ha (ok a) = ha a
Walks-answer_or handle after hh ha (err e) = hh e

pub call-Reach :
    {A : Type 0} (query : Database → Database × Result A) (d : Database)
    → Reach d.tokens (query (record d { faults = later_faults d.faults })).0.tokens
    → Reach d.tokens (call query d).0.tokens
call-Reach {A} query d = by_fault (next_fault d.faults)
  where
    by_fault :
        (f : Fault)
        → Reach d.tokens (query (record d { faults = later_faults d.faults })).0.tokens
        → Reach d.tokens
            (answered f
              (record d { faults = later_faults d.faults })
              (query (record d { faults = later_faults d.faults }))).0.tokens
    by_fault works h = h
    by_fault refused h = here
    by_fault lost h = h

pub revoke_family-Walks : (family : String) → Walks (revoke_refresh_token_family family)
unfolding revoke_refresh_token_family
revoke_family-Walks family d =
    call-Reach (revoking_family family) d (next here (revoke d.tokens d.time family))

get_user_by_id-Walks : (id : String) → Walks (get_user_by_id id)
unfolding get_user_by_id
get_user_by_id-Walks id d = call-Reach (user_of_id id) d here

-- An answer that the database gives, or none with the same change of the tables at most.
pub call-rule :
    {A : Type 0} (query : Database → Database × Result A) (d : Database)
    (C : Database × Result A → Type 0)
    → let d' = record d { faults = later_faults d.faults } in
      C (query d') → C (d', err internal) → C ((query d').0, err internal) → C (call query d)
call-rule {A} query d C = by_fault (next_fault d.faults)
  where
    by_fault :
        (f : Fault)
        → let d' = record d { faults = later_faults d.faults } in
          C (query d')
          → C (d', err internal)
          → C ((query d').0, err internal)
          → C (answered f d' (query d'))
    by_fault works a b c = a
    by_fault refused a b c = b
    by_fault lost a b c = c

pub true-ne-false : {b : Bool} → b ≡ true → b ≡ false → ⊥
true-ne-false h k = cc

pub if-rule {ℓ} :
    {A : Type ℓ} (b : Bool) (x y : A) (C : A → Type 0)
    → (b ≡ true → C x)
    → (b ≡ false → C y)
    → C (if b then x else y)
if-rule true x y C hx hy = hx refl
if-rule false x y C hx hy = hy refl

later_of : (a b c : Bool) → (a ≡ true → ⊥) → (a && b) || c ≡ true → c ≡ true
later_of true b c h k = absurd (h refl)
later_of false b c h k = k

-- The row that a refresh has read is there, and its id is unique.
abbrev pub IsRead : RefreshToken → List RefreshToken → Type 0
IsRead old rows =
    (has_id old.id rows ≡ true)
    × All (λ r. str_eq r.id old.id ≡ true → str_eq r.family_id old.family_id ≡ true) rows

any_live-later :
    (old : String) (rec : RefreshToken) (rows : List RefreshToken)
    → has_id old rows ≡ true
    → has_id rec.id rows ≡ false
    → any (λ r. str_eq r.id old && is_live r) (rec ∷ rows) ≡ true
    → any (λ r. str_eq r.id old && is_live r) rows ≡ true
any_live-later old rec rows there new h =
    later_of (str_eq rec.id old) (is_live rec) _
      (λ e.
        true-ne-false there
          (subst (λ (i : String). has_id i rows ≡ false) ((eq_iff rec.id old).0 e) new))
      h

pub not_refused :
    (users : List User) (rows : List RefreshToken) (rec : RefreshToken)
    → is_refused users rows rec ≡ false
    → (has_id rec.id rows ≡ false) × (has_hash rec.token_hash rows ≡ false)
not_refused users rows rec h = ground arith

committed-Reach :
    (old rec : RefreshToken) (d : Database)
    → rec.family_id ≡ old.family_id
    → IsRead old d.tokens
    → has_id rec.id d.tokens ≡ false
    → has_hash rec.token_hash d.tokens ≡ false
    → (won : Bool) → any (λ r. str_eq r.id old.id && is_live r) (rec ∷ d.tokens) ≡ won
    → Reach d.tokens (committed won (rotated d.time old.id rec d.tokens).0 d).0.tokens
committed-Reach old rec d same read new fresh true h = next here (
    rotate d.tokens rec d.time old.id new fresh
      (subst
        (λ (f : String).
          All (λ r. str_eq r.id old.id ≡ true → str_eq r.family_id f ≡ true) d.tokens)
        (sym same) read.1)
      (any_live-later old.id rec d.tokens read.0 new h))
committed-Reach old rec d same read new fresh false h = here

rotating-Reach :
    (old rec : RefreshToken) (d : Database)
    → rec.family_id ≡ old.family_id
    → IsRead old d.tokens
    → Reach d.tokens (rotating old.id rec d).0.tokens
rotating-Reach old rec d same read =
    if-rule {A = Database × Result Bool} (is_refused d.users d.tokens rec) _ _
      (λ out. Reach d.tokens out.0.tokens) (λ _. here)
      (λ e.
        let (new, fresh) = not_refused d.users d.tokens rec e in
        committed-Reach old rec d same read new fresh _ refl)

pub inserting-Reach :
    (rec : RefreshToken) (d : Database)
    → live_in rec.family_id d.tokens ≡ 0
    → Reach d.tokens (inserting rec d).0.tokens
inserting-Reach rec d opened =
    if-rule {A = Database × Result Unit} (is_refused d.users d.tokens rec) _ _
      (λ out. Reach d.tokens out.0.tokens) (λ _. here)
      (λ e.
        let (new, fresh) = not_refused d.users d.tokens rec e in
        next here (issue d.tokens rec new fresh opened))

module _ (lib : Library) (access_ttl refresh_ttl : ℕ) (draws : Draws) where
  after_rotation-Walks :
      (user : User) (family raw : String) (won : Bool)
      → Walks (after_rotation lib access_ttl refresh_ttl draws user family raw won)
  after_rotation-Walks user family raw true d = here
  after_rotation-Walks user family raw false d =
      Walks-bind (revoke_refresh_token_family family)
        (λ _. refuse {A = TokenResult} invalid_credentials) (revoke_family-Walks family)
        (λ _ d. here) d

  rotating_mint-Reach :
      (user : User) (old : RefreshToken) (raw id : Option String) (d : Database)
      → IsRead old d.tokens
      → Reach d.tokens
          (minted lib access_ttl refresh_ttl draws user old.family_id (some old) raw id d).0.tokens
  unfolding rotate_refresh_token
  rotating_mint-Reach user old none id d read = here
  rotating_mint-Reach user old (some raw) none d read = here
  rotating_mint-Reach user old (some raw) (some id) d read =
      let rec = replacement lib access_ttl refresh_ttl draws user old.family_id raw id in
      Reach-trans (call-Reach (rotating old.id rec) d (rotating-Reach old rec _ refl read)) (
        Walks-answer_or (λ e. refuse {A = TokenResult} internal) _ (λ e d. here)
          (after_rotation-Walks user old.family_id raw) (call (rotating old.id rec) d).1
          (call (rotating old.id rec) d).0)

  with_user-Reach :
      (old : RefreshToken) (answer : Result User) (d : Database)
      → IsRead old d.tokens
      → Reach d.tokens
          (answer_or
            (λ e. refuse (unless_missing e))
            (λ user. mint_and_store lib access_ttl refresh_ttl draws user old.family_id (some old))
            answer
            d).0.tokens
  unfolding mint_and_store
  with_user-Reach old (ok user) d read =
      rotating_mint-Reach user old draws.raw_token draws.token_id d read
  with_user-Reach old (err e) d read = here

  refresh_live-Reach :
      (old : RefreshToken) (d : Database)
      → IsRead old d.tokens
      → Reach d.tokens (refresh_live lib access_ttl refresh_ttl draws old d).0.tokens
  unfolding get_user_by_id
  refresh_live-Reach old d read =
      if-rule {A = Run Database (Result TokenResult)} (not (ltb draws.now old.expires_at)) _ _
        (λ m. Reach d.tokens (m d).0.tokens) (λ _. here)
        (λ _.
          call-rule (user_of_id old.user_id) d
            (λ out.
              Reach d.tokens
                (answer_or (λ e. refuse (unless_missing e))
                  (λ user.
                    mint_and_store lib access_ttl refresh_ttl draws user old.family_id (some old))
                  out.1 out.0).0.tokens)
            (with_user-Reach old _ _ read) here here)

  refresh_found-Reach :
      (old : RefreshToken) (d : Database)
      → IsRead old d.tokens
      → Reach d.tokens (refresh_found lib access_ttl refresh_ttl draws old d).0.tokens
  refresh_found-Reach old d read =
      if-rule {A = Run Database (Result TokenResult)} (is_live old) _ _
        (λ m. Reach d.tokens (m d).0.tokens) (λ _. refresh_live-Reach old d read)
        (λ _.
          Walks-bind (revoke_refresh_token_family old.family_id)
            (λ _. refuse {A = TokenResult} invalid_credentials) (revoke_family-Walks old.family_id)
            (λ _ d. here) d)

  with_token-Reach :
      (hash : String) (o : Option RefreshToken) (d : Database)
      → IsConsistent d.tokens
      → find_hash hash d.tokens ≡ o
      → Reach d.tokens
          (answer_or
            (λ e. refuse (unless_missing e))
            (refresh_found lib access_ttl refresh_ttl draws)
            (one_or refresh_token_not_found o)
            d).0.tokens
  with_token-Reach hash none d c e = here
  with_token-Reach hash (some old) d c e =
      refresh_found-Reach old d
        (find_hash-has_id hash d.tokens old e, find_hash-All_family hash d.tokens old c.keyed e)

  pub refresh-Reach :
      (raw : String) (d : Database)
      → IsConsistent d.tokens
      → Reach d.tokens (refresh lib access_ttl refresh_ttl draws raw d).0.tokens
  unfolding refresh get_refresh_token_by_hash
  refresh-Reach raw d c =
      if-rule {A = Run Database (Result TokenResult)} (str_eq raw "") _ _
        (λ m. Reach d.tokens (m d).0.tokens) (λ _. here)
        (λ _.
          call-rule (token_of_hash (lib.token_hash raw)) d
            (λ out.
              Reach d.tokens
                (answer_or (λ e. refuse (unless_missing e))
                  (refresh_found lib access_ttl refresh_ttl draws) out.1 out.0).0.tokens)
            (with_token-Reach (lib.token_hash raw) _ (record d { faults = later_faults d.faults }) c
              refl)
            here here)
