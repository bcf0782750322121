-- ===== src/Login/Routes.antt =====
-- sonotxt-api/src/routes/user_auth.rs: the handlers around the logins, with their rate limits. The
-- requests' fields are arguments, and the extractor of `update_profile` gives its user. A handler's
-- database statements and calls of redis go by two schedules, `sched` for those of the service it
-- calls, `limits` for its rate limit.
use sonotxt_rust.Base.{
  ℕ, ◌*◌, ◌^◌, Bool, false, ◌&&◌, Option, none, some, ◌==◌, if◌then◌else◌, take,
}
use sonotxt_rust.Base.Int.{ℤ, pos, negsuc}
use sonotxt_rust.Base.Bytes.{Bytes}
use sonotxt_rust.Base.Text.{Text, codes}
use sonotxt_rust.Base.Errors.{Result, ok, err}
use sonotxt_rust.Base.Action.{Action, Schedule, pure, ◌>>=◌, ◌>>◌}
use sonotxt_rust.Login.{Env, User, Ss58Error, hash_nickname, validate_nickname}
use sonotxt_rust.Login.Ss58.{decode_ss58}
use sonotxt_rust.Login.Tables.{Auth}
use sonotxt_rust.Login.Limits.{check_rate_limit, clear_rate_limit}
use sonotxt_rust.Login.Register.{require, is_nickname_available, register_with_pubkey}
use sonotxt_rust.Login.Sessions.{validate_session, logout, update_avatar}
use sonotxt_rust.Login.Ways.{
  get_login_challenge, verify_and_login, get_pubkey_challenge, verify_pubkey_login,
  get_wallet_challenge, verify_wallet_login,
}

pub record AuthResponse : Type 0 where
  pub user_id : ℕ
  pub nickname : Option Text
  pub email : Option Text
  pub wallet_address : Option Text
  pub balance : ℤ
  pub token : Option Text
  pub avatar : Option Text

pub record UserResponse : Type 0 where
  pub user_id : ℕ
  pub nickname : Option Text
  pub email : Option Text
  pub wallet_address : Option Text
  pub balance : ℤ
  pub avatar : Option Text

-- What the faucet sends to an EVM address.
pub record Drip : Type 0 where
  pub evm_addr : Bytes
  pub pas : ℕ
  pub txt : ℕ

abbrev pub response : User → Option Text → Option Text → AuthResponse
response user wallet token = record {
  user_id = user.id;
  nickname = user.nickname;
  email = user.email;
  wallet_address = wallet;
  balance = user.balance;
  token = token;
  avatar = user.avatar;
}

abbrev pub is_zero : ℤ → Bool
is_zero (pos n) = n == 0
is_zero (negsuc n) = false

module _ (env : Env) where
  -- The transfer of the faucet, none for an address that is not valid.
  unfoldable pub drip_to_wallet : Text → Result Ss58Error Drip
  drip_to_wallet ss58_address = elim (decode_ss58 env ss58_address) [
    | err e ↦ err e
    | ok pubkey ↦ ok (record { evm_addr = take 20 pubkey; pas = 10 * 10 ^ 18; txt = 100 * 10 ^ 10 })
  ]

  module _ (limits sched : Schedule Auth) where
    unfoldable pub check_nickname : Text → Action Auth Bool
    check_nickname nickname = do
      require (validate_nickname env nickname)
      is_nickname_available env sched nickname

    unfoldable pub register :
        (id : ℕ) (nickname public_key : Text) (email recovery_share : Option Text)
        → Action Auth AuthResponse
    register id nickname public_key email recovery_share = do
      check_rate_limit limits (codes "register") public_key
      user ← register_with_pubkey env sched id nickname public_key email recovery_share
      clear_rate_limit limits 4 (codes "register") public_key
      pure (response user none none)

    unfoldable pub challenge_of_nickname :
        (id : ℕ) (random : Bytes) (nickname : Text) → Action Auth (Text × Text)
    challenge_of_nickname id random nickname = do
      check_rate_limit limits (codes "challenge") (hash_nickname env nickname)
      get_login_challenge env sched id random nickname

    unfoldable pub verify :
        (random : Bytes) (nickname challenge signature : Text) → Action Auth AuthResponse
    verify random nickname challenge signature = do
      check_rate_limit limits (codes "login") (hash_nickname env nickname)
      (user, token) ← verify_and_login env sched random nickname challenge signature
      clear_rate_limit limits 4 (codes "login") (hash_nickname env nickname)
      pure (response user none (some token))

    unfoldable pub challenge_of_pubkey :
        (id : ℕ) (random : Bytes) (public_key : Text) → Action Auth Text
    challenge_of_pubkey id random public_key = do
      check_rate_limit limits (codes "pubkey_challenge") public_key
      get_pubkey_challenge env sched id random public_key

    unfoldable pub verify_pubkey :
        (id : ℕ) (random : Bytes) (public_key challenge signature : Text) → Action Auth AuthResponse
    verify_pubkey id random public_key challenge signature = do
      check_rate_limit limits (codes "pubkey_login") public_key
      (user, token) ← verify_pubkey_login env sched id random public_key challenge signature
      clear_rate_limit limits 4 (codes "pubkey_login") public_key
      pure (response user none (some token))

    unfoldable pub wallet_challenge : (id : ℕ) (random : Bytes) (address : Text) → Action Auth Text
    wallet_challenge id random address = do
      check_rate_limit limits (codes "wallet_challenge") address
      get_wallet_challenge env sched id random address

    -- With the transfer that the task started for it makes, if SonoService is there.
    unfoldable pub wallet_verify :
        (sono : Bool) (id : ℕ) (random : Bytes) (address challenge signature : Text)
        → Action Auth (AuthResponse × Option (Result Ss58Error Drip))
    unfolding drip_to_wallet
    wallet_verify sono id random address challenge signature = do
      check_rate_limit limits (codes "wallet_login") address
      (user, token) ← verify_wallet_login env sched id random address challenge signature
      clear_rate_limit limits 4 (codes "wallet_login") address
      pure (
        response user (some address) (some token),
        if sono && is_zero user.balance then some (drip_to_wallet address) else none,
      )

    unfoldable pub get_session : Text → Action Auth UserResponse
    get_session token = do
      user ← validate_session env sched token
      pure (record {
        user_id = user.id;
        nickname = user.nickname;
        email = user.email;
        wallet_address = user.wallet_address;
        balance = user.balance;
        avatar = user.avatar;
      })

    unfoldable pub update_profile : ℕ → Option Text → Action Auth (Unit {0})
    update_profile account_id avatar = update_avatar env sched account_id avatar

    -- The handler `logout`.
    unfoldable pub end_session : Text → Action Auth (Unit {0})
    end_session token = logout env sched token
