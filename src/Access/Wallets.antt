-- ===== src/Access/Wallets.antt =====
-- What the cache of tokens makes of a session: an API key without a wallet.
use sonotxt_rust.Base.{ℕ, ◌+◌, ◌<◌, ◌≡◌, ap, ◌∙◌, false, String, Option, none, some, arith}
use sonotxt_rust.Base.Errors.{ApiError, Result, ok, err}
use sonotxt_rust.Base.Assoc.{lookup, lookup-insert_self}
use sonotxt_rust.Base.Action.{quiet, ◌>>=◌}
use sonotxt_rust.Api.Synthesis.{TtsUser, authenticated}
use sonotxt_rust.Access.{
  Access, ApiKey, AuthenticatedUser, get, setex, session_of, remember, authenticate,
  authenticate_key, by_session, by_key, tts_user,
}

abbrev pub at_time : ℕ → Access → Access
at_time now a = record a { now = now }

abbrev pub as_key : ℕ → ℕ → ApiKey
as_key token account = record { key = token; account_id = account; revoked = false }

-- What is remembered is found for less than 300 seconds.
pub get-setex :
    (token d : ℕ) (k : ApiKey) (a : Access)
    → d < 300
    → get token (at_time (a.now + d) (setex token k a).1) ≡ some (some k)
unfolding get setex
get-setex token d k a soon =
    ground
      (arith, lookup-insert_self token (record { value = some k; expires = a.now + 300 }) a.redis)

module _ (token_hash hash_ip : ℕ → ℕ) (token user : ℕ) (wallet : Option String)
    (client_ip : Option ℕ) (a : Access) (miss : get token a ≡ none)
    (no_key : lookup token a.api_keys ≡ none)
    (session : session_of (token_hash token) a ≡ some (user, wallet)) where
  pub first_request :
      tts_user token_hash hash_ip quiet (some token) client_ip a
      ≡ (ok (authenticated user token wallet), (setex token (as_key token user) a).1)
  unfolding tts_user by_key by_session remember ◌>>=◌
  first_request = ground arith

  cached_request :
      (b : Access)
      → get token b ≡ some (some (as_key token user))
      → tts_user token_hash hash_ip quiet (some token) client_ip b
        ≡ (ok (authenticated user token none), b)
  unfolding tts_user ◌>>=◌
  cached_request b hit = ground arith

  cached_key :
      (b : Access)
      → get token b ≡ some (some (as_key token user))
      → authenticate quiet (some token) b
        ≡ (ok (record { account_id = user; api_key = token; wallet_address = none }), b)
  unfolding authenticate ◌>>=◌
  cached_key b hit = ground arith

  -- The first request with a session's token, which is no API key and not cached, gives the user
  -- with the wallet; the requests of the next 300 seconds give the user without it.
  pub wallet_forgotten :
      (a' : Access) × (tts_user token_hash hash_ip quiet (some token) client_ip a
        ≡ (ok (authenticated user token wallet), a'))
      × ((d : ℕ)
          → d < 300
          → (tts_user token_hash hash_ip quiet (some token) client_ip (at_time (a.now + d) a')).0
            ≡ ok (authenticated user token none))
  wallet_forgotten = (
    (setex token (as_key token user) a).1,
    first_request,
    λ d soon.
        ap (λ (x : Result ApiError TtsUser × Access). x.0)
          (cached_request _ (get-setex token d (as_key token user) a soon)),
  )

  -- The extractor for API keys refuses the token of a session that is not cached, but for the 300
  -- seconds after the token was used for a synthesis it accepts it.
  pub session_as_key :
      (authenticate quiet (some token) a ≡ (err ApiError.invalid_api_key, a))
      × ((d : ℕ)
          → d < 300
          → (authenticate quiet (some token) (
              at_time (a.now + d) (tts_user token_hash hash_ip quiet (some token) client_ip a).1)).0
            ≡ ok (record { account_id = user; api_key = token; wallet_address = none }))
  unfolding authenticate authenticate_key ◌>>=◌
  session_as_key = (
    ground arith,
    λ d soon.
        ap (λ b. (authenticate quiet (some token) (at_time (a.now + d) b)).0)
          (ap (λ (x : Result ApiError TtsUser × Access). x.1) first_request)
        ∙ ap (λ (x : Result ApiError AuthenticatedUser × Access). x.0)
            (cached_key _ (get-setex token d (as_key token user) a soon)),
  )
