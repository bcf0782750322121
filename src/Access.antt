-- ===== src/Access.antt =====
-- Who a request comes from: the extractors `AuthenticatedUser` of sonotxt-api/src/auth/api_key.rs
-- and `TtsUser` of auth/free_tier.rs, over the redis cache and the tables api_keys, sessions and
-- users. Tokens, hashes, accounts and times in seconds are numbers; the hashes are parameters.
-- `token_hash` is the SHA-256 of "sonotxt-session-v1" and the token. The `hash_token` of
-- services/user_auth.rs, under which Login stores its sessions, hashes the token alone, so that the
-- sessions found here are not those.
pub mod Cached
pub mod Wallets
mod Tests
use sonotxt_rust.Base.{
  ℕ, ◌+◌, Bool, true, false, ◌&&◌, not, String, Option, none, some, List, [], ◌∷◌, ltb,
  if◌then◌else◌,
}
use sonotxt_rust.Base.Errors.{ApiError, Result, ok}
use sonotxt_rust.Base.Assoc.{Assoc, lookup, insert}
use sonotxt_rust.Base.Action.{Action, Schedule, statement, pure, raise, or_raise, ◌>>=◌, ◌>>◌}
use sonotxt_rust.Api.Synthesis.{TtsUser, authenticated, free_tier}

-- `created_at`, which nothing reads, is left out.
pub record ApiKey : Type 0 where
  pub key : ℕ
  pub account_id : ℕ
  pub revoked : Bool

pub record AuthenticatedUser : Type 0 where
  pub account_id : ℕ
  pub api_key : ℕ
  pub wallet_address : Option String

-- A value in redis, none if it is no JSON of an ApiKey, and when it expires.
pub record Entry : Type 0 where
  pub value : Option ApiKey
  pub expires : ℕ

-- The columns of api_keys that are read.
pub record KeyRow : Type 0 where
  pub account_id : ℕ
  pub revoked : Bool

pub record SessionRow : Type 0 where
  pub user_id : ℕ
  pub expires_at : ℕ

-- redis, the tables by the column they are asked for, the wallets of users, and the time
pub record Access : Type 0 where
  pub redis : Assoc Entry
  pub api_keys : Assoc KeyRow
  pub sessions : Assoc SessionRow
  pub users : Assoc (Option String)
  pub now : ℕ

-- `GET apikey:{token}`
unfoldable pub get : ℕ → Access → Option (Option ApiKey)
get token a = elim (lookup token a.redis) [
  | none ↦ none
  | some e ↦ if ltb a.now e.expires then some e.value else none
]

-- `SETEX apikey:{token} 300 ..`
unfoldable pub setex : ℕ → ApiKey → Access → Unit {0} × Access
setex token k a = (
  tt,
  record a { redis = insert token (record { value = some k; expires = a.now + 300 }) a.redis },
)

-- `SELECT u.id, u.wallet_address FROM sessions s JOIN users u .. AND s.expires_at > NOW()`
unfoldable pub session_of : ℕ → Access → Option (ℕ × Option String)
session_of token_hash a = elim (lookup token_hash a.sessions) [
  | none ↦ none
  | some s ↦
      if ltb a.now s.expires_at
      then (elim (lookup s.user_id a.users) [
        | none ↦ none
        | some wallet ↦ some (s.user_id, wallet)
      ])
      else none
]

-- `let _ = redis..`: an error of redis is dropped.
ignore : Action Access (Unit {0}) → Action Access (Unit {0})
ignore m a = (ok tt, (m a).1)

module _ (sched : Schedule Access) where
  -- Remembers an account under a token for 5 minutes.
  unfoldable pub remember : (k token account_id : ℕ) → Action Access (Unit {0})
  unfolding ignore
  remember k token account_id = ignore (
      statement sched k
        (setex token (record { key = token; account_id = account_id; revoked = false })))

  -- The part of `AuthenticatedUser::from_request_parts` behind a cache miss.
  unfoldable pub authenticate_key : ℕ → Action Access AuthenticatedUser
  authenticate_key token = do
    row ← statement sched 1 (λ a. (lookup token a.api_keys, a))
    r ← or_raise row ApiError.invalid_api_key
    if r.revoked then raise ApiError.invalid_api_key else (do
      remember 2 token r.account_id
      pure (record { account_id = r.account_id; api_key = token; wallet_address = none }))

  unfoldable pub authenticate : Option ℕ → Action Access AuthenticatedUser
  authenticate bearer = do
    token ← or_raise bearer ApiError.invalid_api_key
    cached ← statement sched 0 (λ a. (get token a, a))
    elim cached [
      | none ↦ authenticate_key token
      | some none ↦ raise ApiError.invalid_api_key
      | some (some k) ↦
          if k.revoked
          then raise ApiError.invalid_api_key
          else pure (record { account_id = k.account_id; api_key = k.key; wallet_address = none })
    ]

-- A request's headers x-forwarded-for and x-real-ip, and the address of the connection.
pub record Parts : Type 0 where
  pub x_forwarded_for : Option String
  pub x_real_ip : Option String
  pub connect_info : Option ℕ

abbrev parsed : (String → Option ℕ) → Option String → Option ℕ
parsed parse none = none
parsed parse (some header) = parse header

abbrev or_else : Option ℕ → Option ℕ → Option ℕ
or_else none other = other
or_else (some a) other = some a

-- `first` is the address that a chain begins with, `ip` the address that a text is.
unfoldable pub extract_client_ip : (first ip : String → Option ℕ) → Parts → Option ℕ
extract_client_ip first ip parts =
    or_else (parsed first parts.x_forwarded_for)
      (or_else (parsed ip parts.x_real_ip) parts.connect_info)

module _ (token_hash hash_ip : ℕ → ℕ) (sched : Schedule Access) where
  -- The last part: the free tier of the client's address.
  unfoldable pub by_address : Option ℕ → Action Access TtsUser
  by_address client_ip = do
    ip ← or_raise client_ip (ApiError.invalid_request "could not determine client ip")
    pure (free_tier (hash_ip ip))

  -- The session of a token, else the address.
  unfoldable pub by_session : ℕ → Option ℕ → Action Access TtsUser
  by_session token client_ip = do
    row ← statement sched 3 (λ a. (session_of (token_hash token) a, a))
    elim row [
      | none ↦ by_address client_ip
      | some (user_id, wallet) ↦ (do
        remember sched 4 token user_id
        pure (authenticated user_id token wallet))
    ]

  -- The row of a key that is not revoked, else the session.
  unfoldable pub by_key : ℕ → Option ℕ → Action Access TtsUser
  by_key token client_ip = do
    row ← statement sched 1 (λ a. (lookup token a.api_keys, a))
    elim row [
      | none ↦ by_session token client_ip
      | some r ↦ if r.revoked then by_session token client_ip else (do
        remember sched 2 token r.account_id
        pure (authenticated r.account_id token none))
    ]

  -- `TtsUser::from_request_parts`; `client_ip` is the result of `extract_client_ip`
  unfoldable pub tts_user : Option ℕ → Option ℕ → Action Access TtsUser
  tts_user none client_ip = by_address client_ip
  tts_user (some token) client_ip = do
    cached ← statement sched 0 (λ a. (get token a, a))
    elim cached [
      | some (some k) ↦
          if k.revoked then by_key token client_ip else pure (authenticated k.account_id k.key none)
      | _ ↦ by_key token client_ip
    ]
