-- ===== src/Login/Tables.antt =====
-- The tables that sonotxt-api/src/services/user_auth.rs queries (migrations/004_user_auth.sql and
-- its successors), and the counters in redis. A statement sees and leaves a whole state; an insert
-- that breaks a UNIQUE column leaves it as it is, and sqlx reports an error.
use sonotxt_rust.Base.{
  ℕ, ◌+◌, ◌*◌, Bool, true, false, ◌&&◌, ◌||◌, not, Option, none, some, List, [], ◌∷◌, ltb, ◌==◌,
  if◌then◌else◌, map, filter, any,
}
use sonotxt_rust.Base.Int.{ℤ, pos}
use sonotxt_rust.Base.Text.{Text, eq_text, is_text, same_text}
use sonotxt_rust.Base.Errors.{ApiError}
use sonotxt_rust.Base.Action.{Action, Schedule, statement, pure, raise, ◌>>=◌}
use sonotxt_rust.Login.{User}

-- The columns of `users` that these operations read or write.
pub record UserRow : Type 0 where
  pub id : ℕ
  pub nickname : Option Text
  pub email : Option Text
  pub public_key : Option Text
  pub identifier_hash : Option Text
  pub recovery_share : Option Text
  pub wallet_address : Option Text
  pub balance : ℤ
  pub avatar : Option Text
  pub last_login : Option ℕ

pub record ChallengeRow : Type 0 where
  pub id : ℕ
  pub public_key : Text
  pub challenge : Text
  pub expires_at : ℕ

pub record SessionRow : Type 0 where
  pub user_id : ℕ
  pub token_hash : Text
  pub expires_at : ℕ

-- A counter, and when it expires, if it does.
pub record Counter : Type 0 where
  pub value : ℕ
  pub expires_at : Option ℕ

pub record Auth : Type 0 where
  pub users : List UserRow
  pub auth_challenges : List ChallengeRow
  pub sessions : List SessionRow
  pub redis : Text → Option Counter
  pub now : ℕ

-- A row with all columns at their defaults.
abbrev pub blank : ℕ → UserRow
blank id = record {
  id = id;
  nickname = none;
  email = none;
  public_key = none;
  identifier_hash = none;
  recovery_share = none;
  wallet_address = none;
  balance = pos 0;
  avatar = none;
  last_login = none;
}

-- The user that a query for `id, nickname, email, public_key, balance` makes.
abbrev pub to_user : UserRow → User
to_user u = record {
  id = u.id;
  nickname = u.nickname;
  email = u.email;
  public_key = u.public_key;
  wallet_address = none;
  balance = u.balance;
  avatar = none;
}

abbrev pub with_key : Text → UserRow → Bool
with_key public_key u = is_text public_key u.public_key

abbrev pub with_wallet : Text → UserRow → Bool
with_wallet address u = is_text address u.wallet_address

abbrev pub with_id : ℕ → UserRow → Bool
with_id id u = u.id == id

-- `.. WHERE identifier_hash = $1 AND public_key IS NOT NULL`, with the key
unfoldable pub login_row : Text → List UserRow → Option (UserRow × Text)
login_row hash [] = none
login_row hash (u ∷ us) =
    let rest = login_row hash us in
    if is_text hash u.identifier_hash
    then (elim u.public_key [ none ↦ rest | some key ↦ some (u, key) ])
    else rest

-- Two rows that share a UNIQUE column.
unfoldable pub clashes : UserRow → UserRow → Bool
clashes u v =
    (u.id == v.id || same_text u.nickname v.nickname)
    || ((same_text u.email v.email || same_text u.public_key v.public_key)
        || (same_text u.identifier_hash v.identifier_hash
            || same_text u.wallet_address v.wallet_address))

abbrev pub live_challenge : Text → Text → ℕ → ChallengeRow → Bool
live_challenge key challenge now c =
    eq_text c.public_key key && (eq_text c.challenge challenge && ltb now c.expires_at)

abbrev pub add_challenge : ChallengeRow → Auth → Unit {0} × Auth
add_challenge c a = (tt, record a { auth_challenges = c ∷ a.auth_challenges })

-- `DELETE FROM auth_challenges WHERE id = $1`
abbrev pub delete_challenge : ℕ → Auth → Unit {0} × Auth
delete_challenge id a =
    (tt, record a { auth_challenges = filter (λ c. not (c.id == id)) a.auth_challenges })

abbrev pub touched : (id now : ℕ) → UserRow → UserRow
touched id now u = if u.id == id then record u { last_login = some now } else u

-- `UPDATE users SET last_login = NOW() WHERE id = $1`
abbrev pub touch : ℕ → Auth → Unit {0} × Auth
touch id a = (tt, record a { users = map (touched id a.now) a.users })

module _ (sched : Schedule Auth) where
  -- `INSERT INTO users .. RETURNING ..`
  unfoldable pub insert_user : ℕ → UserRow → Action Auth User
  unfolding clashes
  insert_user k u = do
    fresh ← statement sched k λ a.
        if any (clashes u) a.users then (false, a) else (true, record a { users = u ∷ a.users })
    if fresh then pure (to_user u) else raise ApiError.internal_error

  -- `INSERT INTO auth_challenges ..`, for five minutes from when it is computed
  unfoldable pub store_challenge : (k id : ℕ) (key challenge : Text) → Action Auth (Unit {0})
  store_challenge k id key challenge = statement sched k λ a.
      add_challenge
        (record { id = id; public_key = key; challenge = challenge; expires_at = a.now + 5 * 60 }) a

  -- `INSERT INTO sessions ..`, for thirty days
  unfoldable pub insert_session : (k user_id : ℕ) (token_hash : Text) → Action Auth (Unit {0})
  insert_session k user_id token_hash = do
    fresh ← statement sched k λ a.
        if any (λ (s : SessionRow). eq_text s.token_hash token_hash) a.sessions
        then (false, a)
        else (
          true,
          record a {
            sessions =
                record {
                  user_id = user_id;
                  token_hash = token_hash;
                  expires_at = a.now + 30 * 24 * 60 * 60;
                }
                ∷ a.sessions;
          },
        )
    if fresh then pure tt else raise ApiError.internal_error
