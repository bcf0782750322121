-- ===== src/Noise.antt =====
-- sonotxt-core/src/noise.rs: Noise sessions. The snow crate is the parameter `Snow`: handshake and
-- transport states, which its functions take and give back. A call that fails gives the state too.
pub mod Chunks
pub mod RoundTrip
pub mod Sessions
pub mod Exchange
pub mod Toy
mod Tests
use sonotxt_rust.Base.{
  ℕ, suc, zero, ◌+◌, ◌%◌, ◌^◌, Bool, true, false, Option, none, some, List, [], ◌∷◌, ◌++◌, ltb,
  if◌then◌else◌, length, slice,
}
use sonotxt_rust.Base.Errors.{Result, ok, err}
use sonotxt_rust.Base.Bytes.{Bytes, u32_to_le_bytes, u32_from_le_bytes}
use Chunks.{chunks}

-- What noise.rs uses of snow, for the pattern NK: the initiator is built from the server's public
-- key, the responder from the server's key pair.
pub record Snow : Type 1 where
  pub Failure : Type 0
  pub Keypair : Type 0
  pub Handshake : Type 0
  pub Transport : Type 0
  pub public : Keypair → Bytes
  pub build_initiator : Bytes → Result Failure Handshake
  pub build_responder : Keypair → Result Failure Handshake
  pub write_handshake : Handshake → Result Failure (Bytes × Handshake)
  pub read_handshake : Handshake → Bytes → Result Failure Handshake
  pub into_transport : Handshake → Result Failure Transport
  pub write : Transport → Bytes → Result Failure Bytes × Transport
  pub read : Transport → Bytes → Result Failure Bytes × Transport

-- The errors of noise.rs: those of snow, and its own texts.
pub data NoiseError (F : Type 0) : Type 0 where
  snow_failure : F → NoiseError F
  no_handshake not_established no_session : NoiseError F
  invalid_data truncated_header truncated_data : NoiseError F

-- `MAX_CHUNK_SIZE`
abbrev pub max_chunk_size : ℕ
max_chunk_size = 65000

module _ (snow : Snow) where
  open snow use {Failure, Transport, write, read}

  abbrev pub Outcome : Type 0 → Type 0
  Outcome A = Result (NoiseError Failure) A × Transport

  -- The loop of `encrypt_chunked` over the chunks that are left, on `result`.
  encrypt_loop : Transport → List Bytes → Bytes → Outcome Bytes
  encrypt_loop t [] result = (ok result, t)
  encrypt_loop t (chunk ∷ rest) result =
      let (written, t') = write t chunk in
      elim written [
        | err e ↦ (err (snow_failure e), t')
        | ok ciphertext ↦
            encrypt_loop t' rest
              ((result ++ u32_to_le_bytes (length ciphertext % 2 ^ 32)) ++ ciphertext)
      ]

  unfoldable pub encrypt_chunked : Transport → Bytes → Outcome Bytes
  unfolding encrypt_loop
  encrypt_chunked t plaintext =
      let parts = chunks max_chunk_size plaintext in
      encrypt_loop t parts (u32_to_le_bytes (length parts % 2 ^ 32))

  -- `transport.read_message` of the chunk between two offsets, and the offset behind it.
  read_chunk : Transport → Bytes → ℕ → ℕ → Outcome (Bytes × ℕ)
  read_chunk t bytes start end =
      let (plain, t') = read t (slice bytes start end) in
      elim plain [ err e ↦ (err (snow_failure e), t') | ok plaintext ↦ (ok (plaintext, end), t') ]

  -- One round of the loop of `decrypt_chunked` at `offset`.
  decrypt_chunk : Transport → Bytes → ℕ → Outcome (Bytes × ℕ)
  unfolding read_chunk
  decrypt_chunk t bytes offset =
      let chunk_len = u32_from_le_bytes bytes offset in
      if ltb (length bytes) (offset + 4)
      then (err truncated_header, t)
      else if ltb (length bytes) (offset + 4 + chunk_len)
      then (err truncated_data, t)
      else read_chunk t bytes (offset + 4) (offset + 4 + chunk_len)

  -- The rounds that are left.
  decrypt_loop : ℕ → Transport → Bytes → ℕ → Bytes → Outcome Bytes
  decrypt_loop zero t bytes offset result = (ok result, t)
  decrypt_loop (suc n) t bytes offset result =
      let (chunk, t') = decrypt_chunk t bytes offset in
      elim chunk [
        | err e ↦ (err e, t')
        | ok (plaintext, offset') ↦ decrypt_loop n t' bytes offset' (result ++ plaintext)
      ]

  unfoldable pub decrypt_chunked : Transport → Bytes → Outcome Bytes
  unfolding decrypt_chunk decrypt_loop
  decrypt_chunked t bytes =
      if ltb (length bytes) 4
      then (err invalid_data, t)
      else decrypt_loop (u32_from_le_bytes bytes 0) t bytes 4 []
