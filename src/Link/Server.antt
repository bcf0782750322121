-- ===== src/Link/Server.antt =====
-- sonotxt-worker/src/quic.rs: what the worker does with one stream of a connection. A handler that
-- fails has written nothing: each message is its last step.
use sonotxt_rust.Base.{ℕ, Option, none, some, [], ◌++◌}
use sonotxt_rust.Base.Bytes.{Bytes, to_bytes}
use sonotxt_rust.Base.Errors.{ApiError, Result, ok, err}
use sonotxt_rust.Base.Action.{Action, pure, or_raise, ◌>>=◌}
use sonotxt_rust.Wire.{
  Message, AttestationBundle, insecure, write_message, read_message, attestation_request,
  attestation, noise_handshake, noise_handshake_response, job_notify, job_ack, encrypted_request,
  encrypted_response, encrypted_asr_request, encrypted_asr_response, encrypted_stream_request,
  encrypted_stream_chunk, health_request, health_response,
}
use sonotxt_rust.Noise.{Snow, NoiseError}
use sonotxt_rust.Noise.Sessions.{
  NoiseServer, static_public_key, process_handshake, server_encrypt, server_decrypt, remove_session,
}
use sonotxt_rust.Link.{Json}
use sonotxt_rust.Link.Processor.{Services, run_tts, run_asr, asr_response}

-- The sessions of the worker and the one of the connection.
pub record Host (snow : Snow) : Type 0 where
  pub noise : NoiseServer snow
  pub session_id : Option ℕ

-- `?` on the result of another crate
abbrev pub boxed {ℓ κ μ} : {S : Type ℓ} {E : Type κ} {A : Type μ} → Result E A → Action S A
boxed (ok a) s = (ok a, s)
boxed (err e) s = (err ApiError.internal_error, s)

-- `generate_attestation`; the quote is that of no TEE.
abbrev pub generate_attestation : (Bytes → Bytes) → (quote static_key : Bytes) → AttestationBundle
generate_attestation sha256 quote static_key = record {
  quote = quote;
  static_key = static_key;
  binding_sig = sha256 (quote ++ static_key);
  tee_type = insecure;
}

module _ (snow : Snow) where
  -- A call on the sessions, under their lock.
  abbrev pub with_noise :
      {A : Type 0}
      → (NoiseServer snow → Result (NoiseError (Snow.Failure snow)) A × NoiseServer snow)
      → Action (Host snow) A
  with_noise f w = let (r, s) = f w.noise in boxed r (record w { noise = s })

  abbrev pub current : Action (Host snow) ℕ
  current w = or_raise w.session_id (ApiError.internal "no session") w

  -- When the connection has ended.
  abbrev pub close : Host snow → Host snow
  close w = elim w.session_id [
    | none ↦ w
    | some sid ↦ record w { noise = remove_session snow w.noise sid }
  ]

module _ (json : Json) (sha256 : Bytes → Bytes) (insecure_quote : Bytes) (services : Services)
    (snow : Snow) where
  abbrev pub sent : Message → Action (Host snow) Bytes
  sent m w = (ok (write_message json.of_message [] m), w)

  abbrev pub handle_tts : Bytes → Action (Host snow) Bytes
  handle_tts ciphertext = do
    sid ← current snow
    plaintext ← with_noise snow λ s. server_decrypt snow s sid ciphertext
    request ← or_raise (json.to_tts_request plaintext) ApiError.internal_error
    encrypted ←
        with_noise snow
          λ s. server_encrypt snow s sid (json.of_tts_response (run_tts services.speech request))
    sent (encrypted_response encrypted)

  abbrev pub handle_asr : Bytes → Action (Host snow) Bytes
  handle_asr ciphertext = do
    sid ← current snow
    plaintext ← with_noise snow λ s. server_decrypt snow s sid ciphertext
    request ← or_raise (json.to_asr_request plaintext) ApiError.internal_error
    encrypted ← with_noise snow λ s. server_encrypt snow s sid (
        json.of_asr_response
          (asr_response request.request_id (run_asr services request.audio_base64)))
    sent (encrypted_asr_response encrypted)

  -- `drawn` is the id of the session that a handshake makes.
  abbrev pub handshake : (drawn : ℕ) → Bytes → Action (Host snow) Bytes
  handshake drawn client_msg w =
      let (r, s) = process_handshake snow w.noise drawn client_msg in
      elim r [
        | err e ↦ (err ApiError.internal_error, record w { noise = s })
        | ok (sid, response) ↦
            sent (noise_handshake_response response (to_bytes 16 sid))
              (record { noise = s; session_id = some sid })
      ]

  -- The `match` of `handle_stream`.
  abbrev pub answer : (drawn : ℕ) → Message → Action (Host snow) Bytes
  answer drawn attestation_request w =
      sent
        (attestation (generate_attestation sha256 insecure_quote (static_public_key snow w.noise)))
        w
  answer drawn (noise_handshake client_msg) w = handshake drawn client_msg w
  answer drawn (encrypted_request ciphertext) w = handle_tts ciphertext w
  answer drawn (encrypted_asr_request ciphertext) w = handle_asr ciphertext w
  answer drawn health_request w = sent (health_response services.health) w
  answer drawn (attestation b) w = pure [] w
  answer drawn (noise_handshake_response h sid) w = pure [] w
  answer drawn (job_notify c) w = pure [] w
  answer drawn (job_ack j) w = pure [] w
  answer drawn (encrypted_response c) w = pure [] w
  answer drawn (encrypted_asr_response c) w = pure [] w
  answer drawn (encrypted_stream_request c) w = pure [] w
  answer drawn (encrypted_stream_chunk c) w = pure [] w
  answer drawn (health_response h) w = pure [] w

  -- `handle_stream`, from what the stream brings to what is written on it.
  unfoldable pub handle_stream : (drawn : ℕ) (recv : Bytes) → Action (Host snow) Bytes
  handle_stream drawn recv = do
    (msg, rest) ← boxed (read_message json.to_message recv)
    answer drawn msg

  -- A stream as the peer sees it.
  unfoldable pub serve : (drawn : ℕ) (recv : Bytes) → Host snow → Bytes × Host snow
  unfolding handle_stream
  serve drawn recv w =
      let (r, w') = handle_stream drawn recv w in (elim r [ ok b ↦ b | err e ↦ [] ], w')
