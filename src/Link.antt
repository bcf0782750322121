-- ===== src/Link.antt =====
-- The link between API and worker: here the payloads of sonotxt-core/src/protocol.rs and session
-- ids; the children have the worker, sonotxt-worker/src/quic.rs with its processor.rs, and the
-- API's side, sonotxt-api/src/services/quic_pool.rs. A stream is the bytes it carries. The boxed
-- errors of other crates are `internal_error`. serde_json, SHA-256 and what the local services
-- answer are parameters; `speed` is in millionths.
pub mod Processor
pub mod Server
pub mod Client
pub mod Carried
pub mod Answered
pub mod Connected
mod Tests
use sonotxt_rust.Base.{ℕ, ◌+◌, ◌*◌, ◌/◌, ◌%◌, zero, suc, String, Option, List, [], ◌∷◌}
use sonotxt_rust.Base.Int.{ℤ}
use sonotxt_rust.Base.Bytes.{Bytes}
use sonotxt_rust.Wire.{Message}
use sonotxt_rust.Pool.Calls.{Duration}

pub record EncryptedTtsRequest : Type 0 where
  pub request_id : Bytes
  pub text : String
  pub voice : String
  pub speed : ℤ
  pub language : String

pub record EncryptedTtsResponse : Type 0 where
  pub request_id : Bytes
  pub audio : Bytes
  pub format : String
  pub duration_seconds : Duration
  pub error : Option String

pub record EncryptedAsrRequest : Type 0 where
  pub request_id : Bytes
  pub audio_base64 : String

pub record EncryptedAsrResponse : Type 0 where
  pub request_id : Bytes
  pub text : String
  pub error : Option String

-- serde_json on what the two sides exchange.
pub record Json : Type 0 where
  pub of_message : Message → Bytes
  pub to_message : Bytes → Option Message
  pub of_tts_request : EncryptedTtsRequest → Bytes
  pub to_tts_request : Bytes → Option EncryptedTtsRequest
  pub of_tts_response : EncryptedTtsResponse → Bytes
  pub to_tts_response : Bytes → Option EncryptedTtsResponse
  pub of_asr_request : EncryptedAsrRequest → Bytes
  pub to_asr_request : Bytes → Option EncryptedAsrRequest
  pub of_asr_response : EncryptedAsrResponse → Bytes
  pub to_asr_response : Bytes → Option EncryptedAsrResponse
