-- ===== src/Login/Tests.antt =====
-- Runs of the logins: user 1 registers as Ann with a key and logs in; user 2 has a wallet.
use sonotxt_rust.Base.{
  ℕ, ◌≤◌, ◌<◌, ◌≡◌, ◌↔◌, refl, true, false, none, some, [], ◌∷◌, ◌++◌, any, find, take, replicate,
  not, if◌then◌else◌,
}
use sonotxt_rust.Base.Bytes.{Bytes}
use sonotxt_rust.Base.Text.{Text, codes, as_bytes, eq_text, trim}
use sonotxt_rust.Base.Errors.{ApiError, Result, ok, err}
use sonotxt_rust.Base.Action.{quiet, ◌>>=◌}
use sonotxt_rust.Login.{
  invalid_checksum, Env, User, validate_nickname, validate_public_key, verify_signature,
  verify_sr25519, hash_nickname, hash_token, generate_challenge, generate_session_token,
}
use sonotxt_rust.Login.Ss58.{decode_ss58, ss58_to_h160, IsEncoded, decode_ss58_iff}
use sonotxt_rust.Login.Tables.{
  Auth, insert_session, UserRow, insert_user, store_challenge, to_user, with_key, live_challenge,
  login_row,
}
use sonotxt_rust.Login.Limits.{limit_key, lockout_key, check_rate_limit}
use sonotxt_rust.Login.Register.{
  register_with_pubkey, get_or_create_wallet_user, new_row, wallet_row,
}
use sonotxt_rust.Login.Sessions.{validate_session, create_session}
use sonotxt_rust.Login.Ways.{
  challenge_key, wrapped, get_login_challenge, verify_and_login, verify_pubkey_login,
  verify_wallet_login,
}
use sonotxt_rust.Login.Opened.{later, token}
use sonotxt_rust.Login.Verified.{Decided, verify_and_login-Decided, login_lasts, replay_refused}
use sonotxt_rust.Login.Registered.{register-login}
use sonotxt_rust.Login.Replayed.{pubkey_replay}
use sonotxt_rust.Login.WalletLogin

abbrev same : Bytes → Bytes
same bytes = bytes

-- Texts are their own hex, keys are checked by length alone, and a signature is good if it is
-- 64 bytes of 1.
abbrev env : Env
env = record {
  is_alphanumeric = λ c. not (eq_text (c ∷ []) (codes " "));
  is_whitespace = λ c. eq_text (c ∷ []) (codes " ");
  to_lowercase = same;
  sha256 = same;
  hex_encode = same;
  hex_decode = λ t. some (if eq_text (take 1 t) (codes "a") then take 32 t else t);
  ed25519_key = λ key. true;
  ed25519_verify = λ key message signature. eq_text signature (replicate 64 1);
  sr25519_key = λ key. true;
  sr25519_signature = λ signature. true;
  sr25519_verify = λ key message signature. eq_text signature (replicate 64 1);
  base58_decode = λ t. ok t;
  blake2b = λ bytes. replicate 64 7;
  describe = λ e. "bad address";
}

abbrev ann : Text
ann = codes "ann"

abbrev key : Text
key = replicate 64 b'a'

abbrev good : Text
good = replicate 64 1

abbrev start : Auth
start = record { users = []; auth_challenges = []; sessions = []; redis = λ k. none; now = 1000 }

abbrev ann_row : UserRow
ann_row = new_row env 1 ann key none none

abbrev ann_there : Auth
ann_there = record start { users = ann_row ∷ [] }

registers :
    register_with_pubkey env quiet 1 ann key none none start ≡ (ok (to_user ann_row), ann_there)
unfolding register_with_pubkey validate_nickname validate_public_key hash_nickname eq_text as_bytes
    trim insert_user ◌>>=◌
registers = refl

too_short_name : validate_nickname env (codes " an ") ≡ err "nickname must be at least 3 characters"
unfolding validate_nickname as_bytes trim eq_text
too_short_name = refl

abbrev challenged : Auth
challenged = record ann_there {
  auth_challenges =
      record { id = 7; public_key = key; challenge = replicate 32 5; expires_at = 1300 } ∷ [];
}

challenge_given :
    get_login_challenge env quiet 7 (replicate 32 5) ann ann_there
    ≡ (ok (replicate 32 5, key), challenged)
unfolding get_login_challenge generate_challenge login_row store_challenge hash_nickname eq_text
    as_bytes trim ◌>>=◌
challenge_given = refl

logs_in :
    (verify_and_login env quiet (replicate 32 9) ann (replicate 32 5) good challenged).0
    ≡ ok (to_user ann_row, replicate 32 9)
unfolding verify_and_login verify_signature login_row hash_nickname hash_token
    generate_session_token create_session insert_session eq_text as_bytes trim ◌>>=◌
logs_in = refl

verify_and_login-Decided_example :
    Decided env
      (replicate 32 9)
      ann
      (replicate 32 5)
      good
      challenged
      (verify_and_login env quiet (replicate 32 9) ann (replicate 32 5) good challenged)
verify_and_login-Decided_example =
    verify_and_login-Decided env (replicate 32 9) ann (replicate 32 5) good challenged refl

wrong_signature :
    verify_and_login env quiet (replicate 32 9) ann (replicate 32 5) (replicate 64 2) challenged
    ≡ (err ApiError.invalid_credentials, challenged)
unfolding verify_and_login verify_signature login_row hash_nickname eq_text as_bytes trim ◌>>=◌
wrong_signature = refl

abbrev ann_in : Auth
ann_in = (verify_and_login env quiet (replicate 32 9) ann (replicate 32 5) good challenged).1

ann_enters :
    verify_and_login env quiet (replicate 32 9) ann (replicate 32 5) good challenged
    ≡ (ok (to_user ann_row, replicate 32 9), ann_in)
unfolding verify_and_login verify_signature login_row hash_nickname hash_token
    generate_session_token create_session insert_session eq_text as_bytes trim ◌>>=◌
ann_enters = refl

login_lasts_example :
    (70 < 2592000
      → (v : User) × ((validate_session env quiet (replicate 32 9) (later 70 ann_in)).0 ≡ ok v)
        × (v.id ≡ 1))
    × (2592000 ≤ 70
        → (validate_session env quiet (replicate 32 9) (later 70 ann_in)).0
          ≡ err ApiError.unauthorized)
login_lasts_example =
    login_lasts env (replicate 32 9) ann (replicate 32 5) good challenged ann_in (to_user ann_row)
      (replicate 32 9) refl ann_enters 70

replay_refused_example :
    (verify_and_login env quiet (replicate 32 8) ann (replicate 32 5) good (later 70 ann_in)).0
    ≡ err ApiError.invalid_credentials
replay_refused_example =
    replay_refused env (replicate 32 9) ann (replicate 32 5) good challenged ann_in
      (to_user ann_row) (replicate 32 9) refl ann_enters 7 70 (replicate 32 8) ann good
      (λ h. refl, tt)

register-login_example :
    (key ≡ key)
    × ((d : ℕ) (random : Bytes) (signature : Text)
        → d < 300
        → verify_signature env key (replicate 32 5) signature ≡ true
        → any (λ s. eq_text s.token_hash (hash_token env (token env random))) challenged.sessions
          ≡ false
        → (verify_and_login env quiet random ann (replicate 32 5) signature (later d challenged)).0
          ≡ ok (to_user ann_row, token env random))
register-login_example =
    register-login env 1 ann key none none start ann_there (to_user ann_row) registers 7
      (replicate 32 5) (replicate 32 5, key) challenged challenge_given

key_is_valid : validate_public_key env key ≡ ok tt
unfolding validate_public_key eq_text as_bytes
key_is_valid = refl

never_a_challenge : verify_signature env key (codes "any text") good ≡ true
unfolding verify_signature eq_text as_bytes
never_a_challenge = refl

ann_found : find (with_key key) ann_there.users ≡ some ann_row
unfolding eq_text
ann_found = refl

abbrev by_key : Result ApiError (User × Text) × Auth
by_key = verify_pubkey_login env quiet 3 (replicate 32 9) key (codes "any text") good ann_there

pubkey_replay_example :
    (by_key.0 ≡ ok (to_user ann_row, replicate 32 9))
    × (any (λ s. eq_text s.token_hash (hash_token env (replicate 32 8))) by_key.1.sessions ≡ false
        → (v : User) × ((verify_pubkey_login env quiet 4
              (replicate 32 8)
              key
              (codes "any text")
              good
              (later 86400 by_key.1)).0
            ≡ ok (v, replicate 32 8))
          × (v.id ≡ 1))
unfolding generate_session_token
pubkey_replay_example =
    pubkey_replay env key (codes "any text") good key_is_valid never_a_challenge 3 4 86400
      (replicate 32 9) (replicate 32 8) ann_there ann_row ann_found refl

-- An address is a byte of network, a key and the first bytes of its hash.
abbrev wallet_key : Bytes
wallet_key = replicate 32 3

abbrev address : Text
address = 42 ∷ (wallet_key ++ (7 ∷ 7 ∷ []))

decodes : decode_ss58 env address ≡ ok wallet_key
unfolding decode_ss58 eq_text
decodes = refl

bad_checksum : decode_ss58 env (42 ∷ (wallet_key ++ (7 ∷ 8 ∷ []))) ≡ err invalid_checksum
unfolding decode_ss58 eq_text
bad_checksum = refl

decode_ss58_iff_example :
    ((decode_ss58 env address ≡ ok wallet_key) ↔ IsEncoded env wallet_key address)
    × (IsEncoded env wallet_key address → ss58_to_h160 env address ≡ ok (replicate 20 3))
decode_ss58_iff_example = decode_ss58_iff env address wallet_key address (λ bs. refl) refl

abbrev wallet_user : UserRow
wallet_user = wallet_row 2 address

abbrev wallet_there : Auth
wallet_there = record start {
  users = wallet_user ∷ [];
  auth_challenges =
      record {
        id = 8;
        public_key = challenge_key address;
        challenge = replicate 32 5;
        expires_at = 1300;
      }
      ∷ [];
}

verify_wallet_login-Decided_example :
    WalletLogin.Decided env 3
      (replicate 32 9)
      address
      (replicate 32 5)
      good
      wallet_there
      (verify_wallet_login env quiet 3 (replicate 32 9) address (replicate 32 5) good wallet_there)
verify_wallet_login-Decided_example =
    WalletLogin.verify_wallet_login-Decided env 3 (replicate 32 9) address (replicate 32 5) good
      wallet_there refl refl

wallet_enters :
    (verify_wallet_login env quiet 3 (replicate 32 9) address (replicate 32 5) good wallet_there).0
    ≡ ok (to_user wallet_user, replicate 32 9)
unfolding verify_wallet_login verify_sr25519 decode_ss58 get_or_create_wallet_user hash_token
    generate_session_token create_session insert_session eq_text as_bytes ◌>>=◌
wallet_enters = refl

abbrev counted : Auth
counted = (check_rate_limit quiet (codes "wallet_login") address wallet_there).1

passes : check_rate_limit quiet (codes "wallet_login") address wallet_there ≡ (ok tt, counted)
unfolding check_rate_limit limit_key lockout_key eq_text ◌>>=◌
passes = refl

challenge_of_wallet :
    find (live_challenge (challenge_key address) (replicate 32 5) 1000) counted.auth_challenges
    ≡ some (record {
      id = 8;
      public_key = challenge_key address;
      challenge = replicate 32 5;
      expires_at = 1300;
    })
unfolding check_rate_limit limit_key lockout_key eq_text ◌>>=◌
challenge_of_wallet = refl

signed_by_wallet : verify_sr25519 env wallet_key (as_bytes (wrapped (replicate 32 5))) good ≡ true
unfolding verify_sr25519 as_bytes eq_text
signed_by_wallet = refl
