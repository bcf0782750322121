-- ===== src/Wire.antt =====
-- sonotxt-core/src/protocol.rs: the messages between API and worker and their length-prefixed
-- encoding; sonotxt-core/src/quic.rs: `read_message` and `write_message` on a stream.
-- serde_json is a parameter: `to_vec` and `from_slice`. A stream is the bytes not yet read.
pub mod Codec
pub mod Streams
mod Tests
use sonotxt_rust.Base.{
  ℕ, ◌+◌, ◌%◌, ◌^◌, Bool, String, Option, none, some, List, [], ◌++◌, ltb, if◌then◌else◌, length,
  slice, take, drop,
}
use sonotxt_rust.Base.Errors.{Result, ok, err, ◌>>=◌}
use sonotxt_rust.Base.Bytes.{Bytes, u32_to_le_bytes, u32_from_le_bytes}

pub data TeeType : Type 0 where
  sev_snp tdx insecure : TeeType

pub record AttestationBundle : Type 0 where
  pub quote : Bytes
  pub static_key : Bytes
  pub binding_sig : Bytes
  pub tee_type : TeeType

pub record WorkerHealth : Type 0 where
  pub speech_ok : Bool
  pub llm_ok : Bool
  pub jobs_processing : ℕ
  pub uptime_secs : ℕ

pub data Message : Type 0 where
  attestation_request : Message
  attestation : AttestationBundle → Message
  noise_handshake : Bytes → Message
  noise_handshake_response : (handshake session_id : Bytes) → Message
  job_notify : Bytes → Message
  job_ack : (job_id : String) → Message
  encrypted_request : Bytes → Message
  encrypted_response : Bytes → Message
  encrypted_asr_request : Bytes → Message
  encrypted_asr_response : Bytes → Message
  encrypted_stream_request : Bytes → Message
  encrypted_stream_chunk : Bytes → Message
  health_request : Message
  health_response : WorkerHealth → Message

-- The three messages of `decode`'s errors, and a stream that ends too early.
pub data WireError : Type 0 where
  no_length no_message decode_failed finished_early : WireError

-- `recv.read_exact` of `n` bytes: what was read and what is left.
unfoldable pub read_exact : ℕ → Bytes → Result WireError (Bytes × Bytes)
read_exact n recv =
    if ltb (length recv) n then err finished_early else ok (take n recv, drop n recv)

module _ (to_vec : Message → Bytes) where
  -- `Message::encode`; the length is cut to a u32.
  unfoldable pub encode : Message → Bytes
  encode m = let body = to_vec m in u32_to_le_bytes (length body % 2 ^ 32) ++ body

  -- `write_message`: what the stream holds afterwards.
  unfoldable pub write_message : Bytes → Message → Bytes
  unfolding encode
  write_message send m = send ++ encode m

module _ (from_slice : Bytes → Option Message) where
  parse_body : Bytes → ℕ → Result WireError (Message × ℕ)
  parse_body bytes end = elim (from_slice (slice bytes 4 end)) [
    | none ↦ err decode_failed
    | some m ↦ ok (m, end)
  ]

  -- `Message::decode`: the message and the number of bytes consumed.
  unfoldable pub decode : Bytes → Result WireError (Message × ℕ)
  unfolding parse_body
  decode bytes =
      let len = u32_from_le_bytes bytes 0 in
      if ltb (length bytes) 4
      then err no_length
      else if ltb (length bytes) (4 + len)
      then err no_message
      else parse_body bytes (4 + len)

  -- `read_message`: the message and the rest of the stream.
  unfoldable pub read_message : Bytes → Result WireError (Message × Bytes)
  read_message recv = do
    (len_buf, recv') ← read_exact 4 recv
    (body, rest) ← read_exact (u32_from_le_bytes len_buf 0) recv'
    (m, _) ← decode (len_buf ++ body)
    ok (m, rest)
