-- ===== src/Login/Ways.antt =====
-- The three ways to log in of sonotxt-api/src/services/user_auth.rs: by nickname, by public key and
-- by wallet. Each has a challenge to sign and a login that verifies the signature.
use sonotxt_rust.Base.{ℕ, not, Option, none, some, ◌++◌, find, if◌then◌else◌, is_some}
use sonotxt_rust.Base.Bytes.{Bytes}
use sonotxt_rust.Base.Text.{Text, codes, as_bytes}
use sonotxt_rust.Base.Errors.{ApiError, ok, err}
use sonotxt_rust.Base.Action.{
  Action, Schedule, statement, pure, raise, raise_if, or_raise, ◌>>=◌, ◌>>◌,
}
use sonotxt_rust.Login.{
  Env, User, hash_nickname, validate_public_key, generate_challenge, verify_signature,
  generate_fake_pubkey, verify_sr25519,
}
use sonotxt_rust.Login.Ss58.{decode_ss58}
use sonotxt_rust.Login.Tables.{
  Auth, ChallengeRow, to_user, with_key, login_row, live_challenge, store_challenge,
  delete_challenge,
}
use sonotxt_rust.Login.Register.{
  require, select_user, get_or_create_user_by_pubkey, get_or_create_wallet_user,
}
use sonotxt_rust.Login.Sessions.{create_session}

-- `SELECT id FROM auth_challenges WHERE public_key = $1 AND challenge = $2 AND expires_at > NOW()`
abbrev pub select_challenge :
    Schedule Auth → (k : ℕ) (key challenge : Text) → Action Auth (Option ChallengeRow)
select_challenge sched k key challenge =
    statement sched k λ a. (find (live_challenge key challenge a.now) a.auth_challenges, a)

-- `format!("wallet:{}", address)`, `format!("<Bytes>sonotxt:{}</Bytes>", challenge)`
abbrev pub challenge_key : Text → Text
challenge_key address = codes "wallet:" ++ address

abbrev pub wrapped : Text → Text
wrapped challenge = codes "<Bytes>sonotxt:" ++ (challenge ++ codes "</Bytes>")

module _ (env : Env) (sched : Schedule Auth) where
  -- `decode_ss58(address).map_err(|e| InvalidRequest(e))?`
  abbrev pub decoded : Text → Action Auth Bytes
  decoded address = elim (decode_ss58 env address) [
    | ok pubkey ↦ pure pubkey
    | err e ↦ raise (ApiError.invalid_request (env.describe e))
  ]

  -- The challenge and the key to sign it with; for an unknown nickname a key that nobody has.
  unfoldable pub get_login_challenge :
      (id : ℕ) (random : Bytes) (nickname : Text) → Action Auth (Text × Text)
  get_login_challenge id random nickname = do
    row ← statement sched 0 λ a. (login_row (hash_nickname env nickname) a.users, a)
    let challenge = generate_challenge env random
    elim row [
      | none ↦ pure (challenge, generate_fake_pubkey env (hash_nickname env nickname))
      | some (u, pubkey) ↦ (do
        store_challenge sched 1 id pubkey challenge
        pure (challenge, pubkey))
    ]

  unfoldable pub verify_and_login :
      (random : Bytes) (nickname challenge signature : Text) → Action Auth (User × Text)
  verify_and_login random nickname challenge signature = do
    user_row ← statement sched 0 λ a. (login_row (hash_nickname env nickname) a.users, a)
    (u, pubkey) ← or_raise user_row ApiError.invalid_credentials
    challenge_row ← select_challenge sched 1 pubkey challenge
    c ← or_raise challenge_row ApiError.invalid_credentials
    raise_if (not (verify_signature env pubkey challenge signature)) ApiError.invalid_credentials
    statement sched 2 (delete_challenge c.id)
    token ← create_session env sched 3 u.id random
    pure (to_user u, token)

  unfoldable pub get_pubkey_challenge :
      (id : ℕ) (random : Bytes) (public_key : Text) → Action Auth Text
  get_pubkey_challenge id random public_key = do
    require (validate_public_key env public_key)
    user_exists ← select_user sched 0 (with_key public_key)
    let challenge = generate_challenge env random
    (if is_some user_exists then store_challenge sched 1 id public_key challenge else pure tt)
    pure challenge

  -- `DELETE FROM auth_challenges WHERE id = $1`, if a row was found
  abbrev pub delete_found : ℕ → Option ChallengeRow → Action Auth (Unit {0})
  delete_found k none = pure tt
  delete_found k (some c) = statement sched k (delete_challenge c.id)

  unfoldable pub verify_pubkey_login :
      (id : ℕ) (random : Bytes) (public_key challenge signature : Text) → Action Auth (User × Text)
  verify_pubkey_login id random public_key challenge signature = do
    require (validate_public_key env public_key)
    raise_if (not (verify_signature env public_key challenge signature))
        ApiError.invalid_credentials
    user ← get_or_create_user_by_pubkey env sched 0 id public_key
    challenge_row ← select_challenge sched 2 public_key challenge
    delete_found 3 challenge_row
    token ← create_session env sched 4 user.id random
    pure (user, token)

  unfoldable pub get_wallet_challenge :
      (id : ℕ) (random : Bytes) (address : Text) → Action Auth Text
  get_wallet_challenge id random address = do
    pubkey ← decoded address
    let challenge = generate_challenge env random
    store_challenge sched 0 id (challenge_key address) challenge
    pure challenge

  unfoldable pub verify_wallet_login :
      (id : ℕ) (random : Bytes) (address challenge signature : Text) → Action Auth (User × Text)
  verify_wallet_login id random address challenge signature = do
    pubkey ← decoded address
    challenge_row ← select_challenge sched 0 (challenge_key address) challenge
    c ← or_raise challenge_row ApiError.invalid_credentials
    raise_if (not (verify_sr25519 env pubkey (as_bytes (wrapped challenge)) signature))
        ApiError.invalid_credentials
    statement sched 1 (delete_challenge c.id)
    user ← get_or_create_wallet_user env sched 2 id address
    token ← create_session env sched 4 user.id random
    pure (user, token)
