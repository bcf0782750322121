-- ===== src/Link/Client.antt =====
-- sonotxt-api/src/services/quic_pool.rs: a connection to a worker. The worker is whatever answers
-- what is written on a stream, with a state of its own.
use sonotxt_rust.Base.{
  ℕ, Bool, not, String, Option, none, some, [], ◌++◌, ◌==◌, if◌then◌else◌, length,
}
use sonotxt_rust.Base.Bytes.{Bytes, of_bytes}
use sonotxt_rust.Base.Text.{eq_text}
use sonotxt_rust.Base.Errors.{ApiError, Result, ok, err}
use sonotxt_rust.Base.Action.{Action, pure, raise_if, or_raise, ◌>>=◌, ◌>>◌}
use sonotxt_rust.Wire.{
  Message, AttestationBundle, WorkerHealth, insecure, sev_snp, tdx, write_message, read_message,
  attestation_request, attestation, noise_handshake, noise_handshake_response, job_notify, job_ack,
  encrypted_request, encrypted_response, encrypted_asr_request, encrypted_asr_response,
  health_request, health_response,
}
use sonotxt_rust.Noise.{Snow, NoiseError}
use sonotxt_rust.Noise.Sessions.{
  NoiseClient, initiate_handshake, complete_handshake, client_encrypt, client_decrypt,
}
use sonotxt_rust.Link.{Json, EncryptedTtsRequest, EncryptedTtsResponse, EncryptedAsrResponse}
use sonotxt_rust.Link.Server.{boxed}

-- What each call makes of the reply it waits for.
abbrev pub of_attestation : Message → Option AttestationBundle
of_attestation (attestation b) = some b
of_attestation m = none

abbrev pub of_handshake_response : Message → Option (Bytes × Bytes)
of_handshake_response (noise_handshake_response h sid) = some (h, sid)
of_handshake_response m = none

abbrev pub of_ack : Message → Option String
of_ack (job_ack j) = some j
of_ack m = none

abbrev pub of_response : Message → Option Bytes
of_response (encrypted_response c) = some c
of_response m = none

abbrev pub of_asr_response : Message → Option Bytes
of_asr_response (encrypted_asr_response c) = some c
of_asr_response m = none

abbrev pub of_health : Message → Option WorkerHealth
of_health (health_response h) = some h
of_health m = none

-- `bundle.binding_sig != expected`
abbrev pub eq_bytes : Bytes → Bytes → Bool
eq_bytes = eq_text

unfoldable pub verify_attestation : (Bytes → Bytes) → AttestationBundle → Result ApiError (Unit {0})
verify_attestation sha256 bundle =
    if eq_bytes bundle.binding_sig (sha256 (bundle.quote ++ bundle.static_key))
    then (elim bundle.tee_type [
      | insecure ↦ ok tt
      | sev_snp ↦ err (ApiError.internal "SEV-SNP verification not yet implemented")
      | tdx ↦ err (ApiError.internal "TDX verification not yet implemented")
    ])
    else err (ApiError.internal "attestation binding signature mismatch")

-- `?` on a result of this file
abbrev pub attempt {ℓ κ} : {S : Type ℓ} {A : Type κ} → Result ApiError A → Action S A
attempt (ok a) s = (ok a, s)
attempt (err e) s = (err e, s)

pub record QuicWorkerConn (snow : Snow) (W : Type 0) : Type 0 where
  pub noise : NoiseClient snow
  pub worker : W

module _ (json : Json) (snow : Snow) (W : Type 0) (serve : (recv : Bytes) → W → Bytes × W) where
  -- A call on the session, under its lock.
  abbrev pub on_noise :
      {A : Type 0}
      → (NoiseClient snow → Result (NoiseError (Snow.Failure snow)) A × NoiseClient snow)
      → Action (QuicWorkerConn snow W) A
  on_noise f c = let (r, n) = f c.noise in boxed r (record c { noise = n })

  -- A stream of its own: a message is written, and one is read.
  unfoldable pub exchange : Message → Action (QuicWorkerConn snow W) Message
  exchange m c =
      let (recv, w) = serve (write_message json.of_message [] m) c.worker in
      elim (read_message json.to_message recv) [
        | err e ↦ (err ApiError.internal_error, record c { worker = w })
        | ok (reply, rest) ↦ (ok reply, record c { worker = w })
      ]

  unfoldable pub request_attestation : Action (QuicWorkerConn snow W) AttestationBundle
  request_attestation = do
    msg ← exchange attestation_request
    or_raise (of_attestation msg) (ApiError.internal "expected attestation response")

  unfoldable pub send_noise_handshake :
      (handshake_msg : Bytes) → Action (QuicWorkerConn snow W) (Bytes × ℕ)
  send_noise_handshake handshake_msg = do
    msg ← exchange (noise_handshake handshake_msg)
    (handshake, session_id) ←
        or_raise (of_handshake_response msg) (ApiError.internal "expected handshake response")
    raise_if (not (length session_id == 16)) (ApiError.internal "invalid session id length")
    pure (handshake, of_bytes session_id)

  -- `connect`, on a connection whose session is new.
  unfoldable pub connect : (sha256 : Bytes → Bytes) → Action (QuicWorkerConn snow W) (Unit {0})
  unfolding request_attestation send_noise_handshake
  connect sha256 = do
    bundle ← request_attestation
    attempt (verify_attestation sha256 bundle)
    handshake_msg ← on_noise λ n. initiate_handshake snow n bundle.static_key
    (server_response, session_id) ← send_noise_handshake handshake_msg
    on_noise λ n. complete_handshake snow n server_response session_id

  unfoldable pub notify_job : (job_id : Bytes) → Action (QuicWorkerConn snow W) (Unit {0})
  notify_job job_id = do
    ciphertext ← on_noise λ n. client_encrypt snow n job_id
    response ← exchange (job_notify ciphertext)
    ack_id ← or_raise (of_ack response) (ApiError.internal "unexpected response to job notify")
    pure tt

  unfoldable pub encrypted_tts :
      EncryptedTtsRequest → Action (QuicWorkerConn snow W) EncryptedTtsResponse
  encrypted_tts request = do
    ciphertext ← on_noise λ n. client_encrypt snow n (json.of_tts_request request)
    response ← exchange (encrypted_request ciphertext)
    encrypted ← or_raise (of_response response) (ApiError.internal "unexpected response type")
    decrypted ← on_noise λ n. client_decrypt snow n encrypted
    or_raise (json.to_tts_response decrypted) ApiError.internal_error

  -- `request_id` is drawn.
  unfoldable pub encrypted_asr :
      (request_id : Bytes) (audio_base64 : String)
      → Action (QuicWorkerConn snow W) EncryptedAsrResponse
  encrypted_asr request_id audio_base64 = do
    ciphertext ← on_noise λ n.
        client_encrypt snow n
          (json.of_asr_request (record { request_id = request_id; audio_base64 = audio_base64 }))
    response ← exchange (encrypted_asr_request ciphertext)
    encrypted ← or_raise (of_asr_response response) (ApiError.internal "unexpected response type")
    decrypted ← on_noise λ n. client_decrypt snow n encrypted
    or_raise (json.to_asr_response decrypted) ApiError.internal_error

  unfoldable pub health : Action (QuicWorkerConn snow W) WorkerHealth
  health = do
    response ← exchange health_request
    or_raise (of_health response) (ApiError.internal "unexpected response type")
