-- ===== src/Backend/Auth.antt =====
-- backend/internal/auth/store.go, with the queries of backend/internal/database/sqlc (users.sql.go and
-- refresh_tokens.sql.go): the tables of users and of refresh tokens, and one function for each
-- operation of the store. A UUID and a hash are texts, an instant a number of nanoseconds.
pub mod Service
pub mod Tokens
pub mod Steps
pub mod Rotation
pub mod Requests
pub mod Reuse
use bosun.Prelude.{
  ℕ, String, Bool, true, false, not, ◌&&◌, ◌||◌, Option, none, some, List, [], ◌∷◌, map, any, find,
  str_eq, if◌then◌else◌,
}
use bosun.Prelude.Run.{Run}

pub data AuthError : Type 0 where
  email_taken user_not_found refresh_token_not_found invalid_credentials : AuthError
  refresh_expired validation internal : AuthError

pub data Result (A : Type 0) : Type 0 where
  ok : A → Result A
  err : AuthError → Result A

pub record User : Type 0 where
  pub id : String
  pub email : String
  pub password_hash : String
  pub created_at : ℕ
  pub disabled_at : Option ℕ

pub record RefreshToken : Type 0 where
  pub id : String
  pub user_id : String
  pub family_id : String
  pub token_hash : String
  pub expires_at : ℕ
  pub revoked_at : Option ℕ
  pub replaced_by : Option String

-- What becomes of a call of the database: it works, it is refused and changes nothing, or it is
-- carried out and its answer is lost.
pub data Fault : Type 0 where
  works refused lost : Fault

-- The tables, the clock of the database, what becomes of its next calls (all further ones work), and
-- the users for whom an environment was asked for.
pub record Database : Type 0 where
  pub users : List User
  pub tokens : List RefreshToken
  pub time : ℕ
  pub faults : List Fault
  pub ensured : List String

abbrev pub is_live : RefreshToken → Bool
is_live r = elim r.revoked_at [ none ↦ true | some t ↦ false ]

abbrev pub next_fault : List Fault → Fault
next_fault [] = works
next_fault (f ∷ fs) = f

abbrev pub later_faults : List Fault → List Fault
later_faults [] = []
later_faults (f ∷ fs) = fs

abbrev pub answered : {A : Type 0} → Fault → Database → Database × Result A → Database × Result A
answered works d answer = answer
answered refused d answer = (d, err internal)
answered lost d answer = (answer.0, err internal)

abbrev pub call : {A : Type 0} → (Database → Database × Result A) → Run Database (Result A)
call query d =
    let d' = record d { faults = later_faults d.faults } in
    answered (next_fault d.faults) d' (query d')

abbrev pub one_or : {A : Type 0} → AuthError → Option A → Result A
one_or e none = err e
one_or e (some a) = ok a

abbrev pub has_hash : String → List RefreshToken → Bool
has_hash hash rows = any (λ r. str_eq r.token_hash hash) rows

abbrev pub has_id : String → List RefreshToken → Bool
has_id id rows = any (λ r. str_eq r.id id) rows

abbrev pub find_hash : String → List RefreshToken → Option RefreshToken
find_hash hash rows = find (λ r. str_eq r.token_hash hash) rows

-- The primary key, the unique hash, and the reference to the user.
abbrev pub is_refused : List User → List RefreshToken → RefreshToken → Bool
is_refused users rows rec =
    has_id rec.id rows
    || has_hash rec.token_hash rows
    || not (any (λ u. str_eq u.id rec.user_id) users)

-- The row is revoked in favour of another, if it is the live row of that id.
abbrev pub replace_row : ℕ → String → String → RefreshToken → RefreshToken
replace_row time old by r =
    if str_eq r.id old && is_live r
    then record r { revoked_at = some time; replaced_by = some by }
    else r

abbrev pub revoke_row : ℕ → String → RefreshToken → RefreshToken
revoke_row time family r =
    if str_eq r.family_id family && is_live r then record r { revoked_at = some time } else r

-- What the statements of the rotation make of the rows, and whether a row was updated.
abbrev pub rotated : ℕ → String → RefreshToken → List RefreshToken → List RefreshToken × Bool
rotated time old rec rows =
    let rows' = rec ∷ rows in
    (map (replace_row time old rec.id) rows', any (λ r. str_eq r.id old && is_live r) rows')

module _ (to_lower : String → String) where
  abbrev pub creating_user : String → String → String → Database → Database × Result User
  creating_user id email hash d =
      let user : User = record {
        id = id;
        email = email;
        password_hash = hash;
        created_at = d.time;
        disabled_at = none;
      } in
      if any (λ u. str_eq u.id id || str_eq (to_lower u.email) (to_lower email)) d.users
      then (d, err email_taken)
      else (record d { users = user ∷ d.users }, ok user)

  unfoldable pub create_user : String → String → String → Run Database (Result User)
  create_user id email hash = call (creating_user id email hash)

  abbrev pub user_of_email : String → Database → Database × Result User
  user_of_email email d =
      (d, one_or user_not_found (find (λ u. str_eq (to_lower u.email) (to_lower email)) d.users))

  unfoldable pub get_user_by_email : String → Run Database (Result User)
  get_user_by_email email = call (user_of_email email)

abbrev pub user_of_id : String → Database → Database × Result User
user_of_id id d = (d, one_or user_not_found (find (λ u. str_eq u.id id) d.users))

unfoldable pub get_user_by_id : String → Run Database (Result User)
get_user_by_id id = call (user_of_id id)

abbrev pub updating_password_hash : String → String → Database → Database × Result Unit
updating_password_hash id hash d = (
  record d {
    users = map (λ u. if str_eq u.id id then record u { password_hash = hash } else u) d.users;
  },
  ok tt,
)

unfoldable pub update_password_hash : String → String → Run Database (Result Unit)
update_password_hash id hash = call (updating_password_hash id hash)

abbrev pub inserting : RefreshToken → Database → Database × Result Unit
inserting rec d =
    if is_refused d.users d.tokens rec
    then (d, err internal)
    else (record d { tokens = rec ∷ d.tokens }, ok tt)

unfoldable pub insert_refresh_token : RefreshToken → Run Database (Result Unit)
insert_refresh_token rec = call (inserting rec)

abbrev pub token_of_hash : String → Database → Database × Result RefreshToken
token_of_hash hash d = (d, one_or refresh_token_not_found (find_hash hash d.tokens))

unfoldable pub get_refresh_token_by_hash : String → Run Database (Result RefreshToken)
get_refresh_token_by_hash hash = call (token_of_hash hash)

abbrev pub committed : Bool → List RefreshToken → Database → Database × Result Bool
committed true rows d = (record d { tokens = rows }, ok true)
committed false rows d = (d, ok false)

-- One transaction: it is rolled back where the insert is refused or no row is updated.
abbrev pub rotating : String → RefreshToken → Database → Database × Result Bool
rotating old rec d =
    let (rows, won) = rotated d.time old rec d.tokens in
    if is_refused d.users d.tokens rec then (d, err internal) else committed won rows d

unfoldable pub rotate_refresh_token : String → RefreshToken → Run Database (Result Bool)
rotate_refresh_token old rec = call (rotating old rec)

abbrev pub revoking_family : String → Database → Database × Result Unit
revoking_family family d = (record d { tokens = map (revoke_row d.time family) d.tokens }, ok tt)

unfoldable pub revoke_refresh_token_family : String → Run Database (Result Unit)
revoke_refresh_token_family family = call (revoking_family family)
