-- ===== src/Login.antt =====
-- sonotxt-api/src/services/user_auth.rs: the accounts of users, and the ways to log in to them.
-- This module has the tables that the service keeps, the external functions it calls, and its
-- pure helpers; the children have the operations. Times are in seconds, balances in millionths,
-- the scale of their column. Random bytes and the ids that the database draws are arguments.

pub mod Ss58
pub mod Tables
pub mod Limits
pub mod Register
pub mod Sessions
pub mod Ways
pub mod Opened
pub mod Verified
pub mod Registered
pub mod Replayed
pub mod WalletLogin
pub mod Routes
pub mod Faucet
mod Tests
use sonotxt_rust.Base.{
  ℕ, ◌+◌, Bool, true, false, ◌&&◌, ◌||◌, not, String, Option, none, some, List, [], ◌∷◌, ◌++◌, ltb,
  leb, ◌==◌, length, all, if◌then◌else◌,
}
use sonotxt_rust.Base.Int.{ℤ}
use sonotxt_rust.Base.Bytes.{Bytes}
use sonotxt_rust.Base.Text.{Text, codes, as_bytes, trim}
use sonotxt_rust.Base.Errors.{Result, ok, err}

-- The errors of `decode_ss58`, in order; the first holds that of bs58.
pub data Ss58Error : Type 0 where
  invalid_base58 : String → Ss58Error
  too_short : Ss58Error
  invalid_length : ℕ → Ss58Error
  invalid_checksum : Ss58Error

-- What the service calls: the tables of Unicode, and the crates sha2, hex, ed25519-dalek,
-- schnorrkel, bs58 and blake2b_simd. A key or a signature of the right length may still be
-- refused by its crate. `describe` is the text that `format!` makes of an address's error.
pub record Env : Type 0 where
  pub is_alphanumeric : ℕ → Bool
  pub is_whitespace : ℕ → Bool
  pub to_lowercase : Text → Text
  pub sha256 : Bytes → Bytes
  pub hex_encode : Bytes → Text
  pub hex_decode : Text → Option Bytes
  pub ed25519_key : Bytes → Bool
  pub ed25519_verify : (key message signature : Bytes) → Bool
  pub sr25519_key : Bytes → Bool
  pub sr25519_signature : Bytes → Bool
  pub sr25519_verify : (key message signature : Bytes) → Bool
  pub base58_decode : Text → Result String Bytes
  pub blake2b : Bytes → Bytes
  pub describe : Ss58Error → String

-- `struct User`
pub record User : Type 0 where
  pub id : ℕ
  pub nickname : Option Text
  pub email : Option Text
  pub public_key : Option Text
  pub wallet_address : Option Text
  pub balance : ℤ
  pub avatar : Option Text

module _ (env : Env) where
  open env use {
    is_alphanumeric, is_whitespace, to_lowercase, sha256, hex_encode, hex_decode, ed25519_key,
    ed25519_verify, sr25519_key, sr25519_signature, sr25519_verify,
  }

  unfoldable pub hash_nickname : Text → Text
  hash_nickname nickname = hex_encode (
      sha256 (
        as_bytes (codes "sonotxt-nick-v1")
        ++ as_bytes (trim is_whitespace (to_lowercase nickname))))

  unfoldable pub validate_nickname : Text → Result String (Unit {0})
  validate_nickname nickname =
      let nick = trim is_whitespace nickname in
      if ltb (length (as_bytes nick)) 3
      then err "nickname must be at least 3 characters"
      else if ltb 20 (length (as_bytes nick))
      then err "nickname must be at most 20 characters"
      else if not (all (λ c. is_alphanumeric c || (c == b'_' || c == b'-')) nick)
      then err "nickname can only contain letters, numbers, _ and -"
      else ok tt

  -- `c.is_ascii_hexdigit()`
  unfoldable pub is_ascii_hexdigit : ℕ → Bool
  is_ascii_hexdigit c =
      (leb b'0' c && leb c b'9') || ((leb b'a' c && leb c b'f') || (leb b'A' c && leb c b'F'))

  unfoldable pub validate_public_key : Text → Result String (Unit {0})
  unfolding is_ascii_hexdigit
  validate_public_key pubkey =
      if not (length (as_bytes pubkey) == 64)
      then err "invalid public key length"
      else if not (all is_ascii_hexdigit pubkey)
      then err "invalid public key format"
      else (elim (hex_decode pubkey) [
        | none ↦ err "invalid hex"
        | some bytes ↦
            if not (length bytes == 32)
            then err "invalid key length"
            else if ed25519_key bytes
            then ok tt
            else err "invalid ed25519 public key"
      ])

  -- `generate_challenge`, `generate_session_token`: the text of 32 random bytes
  unfoldable pub generate_challenge : Bytes → Text
  generate_challenge bytes = hex_encode bytes

  unfoldable pub generate_session_token : Bytes → Text
  generate_session_token bytes = hex_encode bytes

  unfoldable pub verify_signature : (pubkey_hex challenge signature_hex : Text) → Bool
  verify_signature pubkey_hex challenge signature_hex = elim (hex_decode pubkey_hex) [
    | none ↦ false
    | some key ↦
        if length key == 32 && ed25519_key key
        then (elim (hex_decode signature_hex) [
          | none ↦ false
          | some sig ↦
              if length sig == 64 then ed25519_verify key (as_bytes challenge) sig else false
        ])
        else false
  ]

  unfoldable pub hash_token : Text → Text
  hash_token token = hex_encode (sha256 (as_bytes token))

  unfoldable pub generate_fake_pubkey : Text → Text
  generate_fake_pubkey nick_hash =
      hex_encode (sha256 (as_bytes (codes "sonotxt-fake-pubkey-v1") ++ as_bytes nick_hash))

  -- `signature_hex.strip_prefix("0x").unwrap_or(signature_hex)`
  abbrev pub strip_0x : Text → Text
  strip_0x [] = []
  strip_0x (c ∷ []) = c ∷ []
  strip_0x (c ∷ d ∷ s) = if c == b'0' && d == b'x' then s else c ∷ d ∷ s

  unfoldable pub verify_sr25519 : (pubkey message : Bytes) (signature_hex : Text) → Bool
  verify_sr25519 pubkey message signature_hex = elim (hex_decode (strip_0x signature_hex)) [
    | none ↦ false
    | some sig ↦
        length sig == 64
        && (sr25519_key pubkey && (sr25519_signature sig && sr25519_verify pubkey message sig))
  ]
