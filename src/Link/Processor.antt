-- ===== src/Link/Processor.antt =====
-- sonotxt-worker/src/processor.rs: the synthesis and the transcription of the local services.
use Prim.Native.String.{◌++◌}
use sonotxt_rust.Base.{String, none, some, []}
use sonotxt_rust.Base.Bytes.{Bytes}
use sonotxt_rust.Base.Errors.{Result, ok, err}
use sonotxt_rust.Wire.{WorkerHealth}
use sonotxt_rust.Pool.Calls.{no_duration, wav_duration}
use sonotxt_rust.Link.{EncryptedTtsRequest, EncryptedTtsResponse, EncryptedAsrResponse}

-- What the local service answers: no connection, an error status with its body, a body that
-- cannot be read, or what was asked for.
pub data Reply (A : Type 0) : Type 0 where
  unreachable : String → Reply A
  refused : (status body : String) → Reply A
  unreadable : String → Reply A
  served : A → Reply A

abbrev pub err_response : Bytes → String → EncryptedTtsResponse
err_response request_id error = record {
  request_id = request_id;
  audio = [];
  format = "";
  duration_seconds = no_duration;
  error = some error;
}

-- `run_tts`, which asks for the text in the voice and the language.
abbrev pub run_tts :
    ((text voice language : String) → Reply Bytes) → EncryptedTtsRequest → EncryptedTtsResponse
run_tts speech r = elim (speech r.text r.voice r.language) [
  | unreachable e ↦ err_response r.request_id ("request failed: " ++ e)
  | refused status body ↦ err_response r.request_id ("speech " ++ (status ++ (": " ++ body)))
  | unreadable e ↦ err_response r.request_id ("read body: " ++ e)
  | served wav_data ↦ record {
    request_id = r.request_id;
    audio = wav_data;
    format = "wav";
    duration_seconds = wav_duration wav_data;
    error = none;
  }
]

-- The local services: speech, transcription, and the health of both, with the uptime.
pub record Services : Type 0 where
  pub speech : (text voice language : String) → Reply Bytes
  pub transcribe : String → Reply String
  pub health : WorkerHealth

abbrev pub run_asr : Services → String → Result String String
run_asr services audio_base64 = elim (services.transcribe audio_base64) [
  | unreachable e ↦ err ("asr request: " ++ e)
  | refused status body ↦ err ("asr " ++ (status ++ (": " ++ body)))
  | unreadable e ↦ err ("asr json: " ++ e)
  | served text ↦ ok text
]

-- `EncryptedAsrResponse` of the result of `run_asr`
abbrev pub asr_response : Bytes → Result String String → EncryptedAsrResponse
asr_response request_id (ok text) = record { request_id = request_id; text = text; error = none }
asr_response request_id (err e) = record { request_id = request_id; text = ""; error = some e }
