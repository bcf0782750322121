-- ===== src/Login/Register.antt =====
-- Registration in sonotxt-api/src/services/user_auth.rs: with a nickname and a key, with a key
-- alone, and the accounts that a login by key or wallet makes.
use sonotxt_rust.Base.{
  ℕ, ◌+◌, Bool, true, false, ◌&&◌, ◌||◌, not, String, Option, none, some, ◌++◌, ltb, length, find,
  any, ◌==◌, is_some,
}
use sonotxt_rust.Base.Text.{Text, codes, as_bytes, trim, is_text}
use sonotxt_rust.Base.Errors.{ApiError, Result, ok, err}
use sonotxt_rust.Base.Action.{Action, Schedule, statement, pure, raise, raise_if, ◌>>=◌, ◌>>◌}
use sonotxt_rust.Login.{Env, User, hash_nickname, validate_nickname, validate_public_key}
use sonotxt_rust.Login.Tables.{Auth, UserRow, blank, to_user, with_key, with_wallet, insert_user}

-- `SELECT .. FROM users WHERE ..` with one row at most
abbrev pub select_user : Schedule Auth → ℕ → (UserRow → Bool) → Action Auth (Option UserRow)
select_user sched k test = statement sched k λ a. (find test a.users, a)

-- `SELECT 1 FROM users WHERE ..` into an `Option<(i64,)>`: sqlx decodes no INT4 as an i64, so that
-- a row is an error.
unfoldable pub select_one : Schedule Auth → ℕ → (UserRow → Bool) → Action Auth (Option ℕ)
select_one sched k test = do
  row ← select_user sched k test
  elim row [ none ↦ pure none | some u ↦ raise ApiError.internal_error ]

-- `if let Err(e) = check { return Err(InvalidRequest(e)) }`
abbrev pub require : Result String (Unit {0}) → Action Auth (Unit {0})
require (ok t) = pure tt
require (err e) = raise (ApiError.invalid_request e)

-- `format!("pk:{}", public_key)`
abbrev pub key_row : ℕ → Text → UserRow
key_row id public_key = record (blank id) {
  public_key = some public_key;
  identifier_hash = some (codes "pk:" ++ public_key);
}

abbrev pub wallet_row : ℕ → Text → UserRow
wallet_row id address = record (blank id) { wallet_address = some address }

module _ (env : Env) where
  -- `email.map(|e| e.to_lowercase().trim().to_string())`
  abbrev pub email_lower : Option Text → Option Text
  email_lower none = none
  email_lower (some e) = some (trim env.is_whitespace (env.to_lowercase e))

  abbrev pub contains_at : Text → Bool
  contains_at = any (λ c. c == b'@')

  abbrev pub is_bad_email : Option Text → Bool
  is_bad_email none = false
  is_bad_email (some e) = not (contains_at e) || ltb (length (as_bytes e)) 5

  -- The row that registration with a nickname inserts.
  abbrev pub new_row : (id : ℕ) (nickname public_key : Text) (email share : Option Text) → UserRow
  new_row id nickname public_key email share = record (blank id) {
    nickname = some (trim env.is_whitespace (env.to_lowercase nickname));
    public_key = some public_key;
    identifier_hash = some (hash_nickname env nickname);
    email = email_lower email;
    recovery_share = share;
  }

  module _ (sched : Schedule Auth) where
    unfoldable pub is_nickname_available : Text → Action Auth Bool
    is_nickname_available nickname = pure true

    unfoldable pub is_nickname_actually_available : ℕ → Text → Action Auth Bool
    unfolding select_one
    is_nickname_actually_available k nickname = do
      exists ← select_one sched k λ u. is_text (hash_nickname env nickname) u.identifier_hash
      pure (not (is_some exists))

    -- The query for an email that is in use.
    unfoldable pub check_email : ℕ → Option Text → Action Auth (Unit {0})
    unfolding select_one
    check_email k none = pure tt
    check_email k (some e) = do
      exists ← select_one sched k λ u. is_text e u.email
      raise_if (is_some exists) (ApiError.invalid_request "email already registered")

    -- `id` is what the database draws.
    unfoldable pub register_with_pubkey :
        (id : ℕ) (nickname public_key : Text) (email recovery_share : Option Text)
        → Action Auth User
    unfolding is_nickname_actually_available check_email select_one
    register_with_pubkey id nickname public_key email recovery_share = do
      require (validate_nickname env nickname)
      require (validate_public_key env public_key)
      raise_if (is_bad_email (email_lower email)) (ApiError.invalid_request "invalid email")
      raise_if (is_some email && not (is_some recovery_share))
          (ApiError.invalid_request "recovery_share required with email")
      available ← is_nickname_actually_available 0 nickname
      raise_if (not available) (ApiError.invalid_request "registration failed")
      pk_exists ← select_one sched 1 (with_key public_key)
      raise_if (is_some pk_exists) (ApiError.invalid_request "public key already registered")
      check_email 2 (email_lower email)
      insert_user sched 3 (new_row id nickname public_key email recovery_share)

    -- The statements are numbered from `k`.
    unfoldable pub get_or_create_user_by_pubkey : (k id : ℕ) (public_key : Text) → Action Auth User
    get_or_create_user_by_pubkey k id public_key = do
      existing ← select_user sched k (with_key public_key)
      elim existing [
        | some u ↦ pure (to_user u)
        | none ↦ insert_user sched (k + 1) (key_row id public_key)
      ]

    unfoldable pub register_with_pubkey_only : (id : ℕ) (public_key : Text) → Action Auth User
    register_with_pubkey_only id public_key = do
      require (validate_public_key env public_key)
      existing ← select_user sched 0 (with_key public_key)
      elim existing [
        | some u ↦ pure (to_user u)
        | none ↦ insert_user sched 1 (key_row id public_key)
      ]

    unfoldable pub get_or_create_wallet_user : (k id : ℕ) (address : Text) → Action Auth User
    get_or_create_wallet_user k id address = do
      existing ← select_user sched k (with_wallet address)
      elim existing [
        | some u ↦ pure (to_user u)
        | none ↦ insert_user sched (k + 1) (wallet_row id address)
      ]
