-- ===== src/Login/Sessions.antt =====
-- Sessions in sonotxt-api/src/services/user_auth.rs: the token that every login ends with, and what
-- validates and deletes it.
use sonotxt_rust.Base.{
  ℕ, ◌+◌, Bool, true, ◌&&◌, not, Option, none, some, List, [], ◌∷◌, ltb, ◌==◌, if◌then◌else◌, find,
  filter, any, map,
}
use sonotxt_rust.Base.Bytes.{Bytes}
use sonotxt_rust.Base.Text.{Text, codes, eq_text}
use sonotxt_rust.Base.Errors.{ApiError}
use sonotxt_rust.Base.Action.{Action, Schedule, statement, pure, raise_if, or_raise, ◌>>=◌, ◌>>◌}
use sonotxt_rust.Login.{Env, User, generate_session_token, hash_token}
use sonotxt_rust.Login.Tables.{Auth, UserRow, SessionRow, to_user, with_id, insert_session, touch}

-- `SELECT .. FROM sessions s JOIN users u .. WHERE s.token_hash = $1 AND s.expires_at > NOW()`
unfoldable pub session_user : Text → Auth → Option UserRow
session_user token_hash a =
    elim (find (λ (s : SessionRow). eq_text s.token_hash token_hash && ltb a.now s.expires_at)
      a.sessions) [ none ↦ none | some s ↦ find (with_id s.user_id) a.users ]

-- The user with the columns that only `validate_session` reads.
abbrev pub whole_user : UserRow → User
whole_user u = record (to_user u) { wallet_address = u.wallet_address; avatar = u.avatar }

abbrev allowed_avatars : List Text
allowed_avatars =
    codes "haru"
    ∷ codes "hiyori"
    ∷ codes "mao"
    ∷ codes "mark"
    ∷ codes "natori"
    ∷ codes "rice"
    ∷ codes "wanko"
    ∷ []

abbrev pub is_allowed_avatar : Option Text → Bool
is_allowed_avatar none = true
is_allowed_avatar (some avatar) = any (eq_text avatar) allowed_avatars

module _ (env : Env) (sched : Schedule Auth) where
  -- The end of every login: a session for the user, under a token of random bytes.
  unfoldable pub create_session : (k user_id : ℕ) (random : Bytes) → Action Auth Text
  create_session k user_id random = do
    let token = generate_session_token env random
    insert_session sched k user_id (hash_token env token)
    statement sched (k + 1) (touch user_id)
    pure token

  unfoldable pub validate_session : Text → Action Auth User
  unfolding session_user
  validate_session token = do
    row ← statement sched 0 λ a. (session_user (hash_token env token) a, a)
    u ← or_raise row ApiError.unauthorized
    pure (whole_user u)

  unfoldable pub logout : Text → Action Auth (Unit {0})
  logout token = statement sched 0 λ a. (
    tt,
    record a {
      sessions = filter (λ s. not (eq_text s.token_hash (hash_token env token))) a.sessions;
    },
  )

  unfoldable pub update_avatar : ℕ → Option Text → Action Auth (Unit {0})
  update_avatar user_id avatar = do
    raise_if (not (is_allowed_avatar avatar)) (ApiError.invalid_request "invalid avatar")
    statement sched 0 λ a. (
      tt,
      record a {
        users = map (λ u. if u.id == user_id then record u { avatar = avatar } else u) a.users;
      },
    )
