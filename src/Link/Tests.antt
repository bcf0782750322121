-- ===== src/Link/Tests.antt =====
-- Runs of the link with a toy snow and a toy serde_json: the JSON of a message is a number for its
-- kind and the bytes that it carries.
use sonotxt_rust.Base.{
  ℕ, ◌+◌, ◌≡◌, refl, true, false, Option, Option-cases, inl, inr, none, some, [], ◌∷◌, ◌++◌, arith,
  ◌==◌, if◌then◌else◌,
}
use sonotxt_rust.Base.Int.{pos}
use sonotxt_rust.Base.Errors.{ok}
use sonotxt_rust.Base.Bytes.{Bytes, to_bytes, u32_to_le_bytes}
use sonotxt_rust.Base.Assoc.{lookup}
use sonotxt_rust.Wire.{
  Message, attestation_request, attestation, noise_handshake, noise_handshake_response, job_notify,
  encrypted_request, encrypted_response,
}
use sonotxt_rust.Noise.{encrypt_chunked}
use sonotxt_rust.Noise.Chunks.{chunks}
use sonotxt_rust.Noise.Toy.{tag, toy, toy_steps, toy_handshakes}
use sonotxt_rust.Noise.Sessions.{
  NoiseClient, NoiseServer, new_client, client_encrypt, server_encrypt, initiate_handshake,
  process_handshake, static_public_key, respond,
}
use sonotxt_rust.Noise.Exchange.{Linked}
use sonotxt_rust.Link.{Json, EncryptedTtsRequest}
use sonotxt_rust.Link.Processor.{Services, served, unreachable, run_tts}
use sonotxt_rust.Link.Server.{Host, generate_attestation, serve}
use sonotxt_rust.Link.Client.{connect, encrypted_tts}
use sonotxt_rust.Link.Carried.{Carries}
use sonotxt_rust.Link.Answered.{encrypted_tts-run_tts}
use sonotxt_rust.Link.Connected.{connect-Linked}

abbrev of_message : Message → Bytes
of_message (attestation b) = 1 ∷ b.static_key
of_message (noise_handshake h) = 2 ∷ h
of_message (noise_handshake_response h sid) = 3 ∷ (h ++ sid)
of_message (job_notify c) = 4 ∷ c
of_message (encrypted_request c) = 5 ∷ c
of_message (encrypted_response c) = 6 ∷ c
of_message m = 0 ∷ []

abbrev no_hash : Bytes → Bytes
no_hash b = []

abbrev to_response : Bytes → Option Message
to_response [] = none
to_response (h ∷ sid) = some (noise_handshake_response (h ∷ []) sid)

abbrev to_message : Bytes → Option Message
to_message [] = none
to_message (kind ∷ b) =
    if kind == 0
    then some attestation_request
    else if kind == 1
    then some (attestation (generate_attestation no_hash [] b))
    else if kind == 2
    then some (noise_handshake b)
    else if kind == 3
    then to_response b
    else if kind == 4
    then some (job_notify b)
    else if kind == 5
    then some (encrypted_request b)
    else some (encrypted_response b)

abbrev request : EncryptedTtsRequest
request = record {
  request_id = 9 ∷ [];
  text = "hi";
  voice = "v";
  speed = pos 1000000;
  language = "en";
}

abbrev services : Services
services = record {
  speech = λ text voice language. served (1 ∷ 2 ∷ []);
  transcribe = λ audio. unreachable "off";
  health = record { speech_ok = true; llm_ok = false; jobs_processing = 0; uptime_secs = 5 };
}

abbrev json : Json
json = record {
  of_message = of_message;
  to_message = to_message;
  of_tts_request = λ r. 7 ∷ [];
  to_tts_request = λ b. some request;
  of_tts_response = λ r. 8 ∷ [];
  to_tts_response = λ b. some (run_tts services.speech request);
  of_asr_request = λ r. [];
  to_asr_request = λ b. none;
  of_asr_response = λ r. [];
  to_asr_response = λ b. none;
}

abbrev host : Host toy
host = record {
  noise = record { static_keypair = 7; sessions = (3, (0, 0)) ∷ [] };
  session_id = some 3;
}

abbrev client : NoiseClient toy
client = record { handshake = none; transport = some (0, 0); session_id = some 3 }

linked : Linked toy toy_steps client host.noise 3
unfolding lookup
linked = record {
  t = (0, 0);
  u = (0, 0);
  client_side = refl;
  server_side = refl;
  in_step = (refl, refl);
}

abbrev sealed : ℕ → Bytes
sealed b = 1 ∷ 0 ∷ 0 ∷ 0 ∷ 17 ∷ 0 ∷ 0 ∷ 0 ∷ b ∷ tag

one_chunk : (t : ℕ × ℕ) → encrypt_chunked toy t (7 ∷ []) ≡ (ok (sealed 7), (t.0 + 1, t.1))
unfolding encrypt_chunked chunks u32_to_le_bytes
one_chunk t = refl

one_chunk_back : (t : ℕ × ℕ) → encrypt_chunked toy t (8 ∷ []) ≡ (ok (sealed 8), (t.0 + 1, t.1))
unfolding encrypt_chunked chunks u32_to_le_bytes
one_chunk_back t = refl

short_request :
    (sent : Bytes) (c1 : NoiseClient toy)
    → client_encrypt toy client (7 ∷ []) ≡ (ok sent, c1)
    → sent ≡ sealed 7
unfolding client_encrypt
short_request sent c1 e = ground (arith, one_chunk (0, 0))

short_reply :
    (s s2 : NoiseServer toy) (reply : Bytes)
    → server_encrypt toy s 3 (8 ∷ []) ≡ (ok reply, s2)
    → reply ≡ sealed 8
unfolding server_encrypt
short_reply s s2 reply e = elim (Option-cases (lookup 3 s.sessions)) [
  | inl none_there ↦ ground arith
  | inr (t, there) ↦ ground (arith, one_chunk_back t)
]

request-Carries :
    (sent : Bytes) (c1 : NoiseClient toy)
    → client_encrypt toy client (7 ∷ []) ≡ (ok sent, c1)
    → Carries json (encrypted_request sent)
request-Carries sent c1 e =
    rw (short_request sent c1 e) (record { back = refl; fits = omega arith })

notice-Carries :
    (sent : Bytes) (c1 : NoiseClient toy)
    → client_encrypt toy client (7 ∷ []) ≡ (ok sent, c1)
    → Carries json (job_notify sent)
notice-Carries sent c1 e = rw (short_request sent c1 e) (record { back = refl; fits = omega arith })

reply-Carries :
    (s s2 : NoiseServer toy) (reply : Bytes)
    → server_encrypt toy s 3 (8 ∷ []) ≡ (ok reply, s2)
    → Carries json (encrypted_response reply)
reply-Carries s s2 reply e =
    rw (short_reply s s2 reply e) (record { back = refl; fits = omega arith })

encrypted_tts-run_tts_example :
    (c' : NoiseClient toy) × (w' : Host toy) × (encrypted_tts json toy
        (Host toy)
        (serve json no_hash [] services toy 5)
        request
        (record { noise = client; worker = host })
      ≡ (ok (run_tts services.speech request), record { noise = c'; worker = w' }))
    × (w'.session_id ≡ some 3)
    × Linked toy toy_steps c' w'.noise 3
encrypted_tts-run_tts_example =
    encrypted_tts-run_tts json no_hash [] services toy toy_steps 5 client host 3 request refl linked
      refl refl (omega arith) (omega arith) request-Carries reply-Carries

hello-Carries :
    (request : Bytes) (c1 : NoiseClient toy)
    → initiate_handshake toy (new_client toy) (static_public_key toy host.noise) ≡ (ok request, c1)
    → Carries json (noise_handshake request)
unfolding initiate_handshake static_public_key
hello-Carries request c1 e =
    let said : request ≡ 0 ∷ [] = ground arith in
    rw said (record { back = refl; fits = omega arith })

welcome-Carries :
    (request response : Bytes) (s : NoiseServer toy)
    → process_handshake toy host.noise 5 request ≡ (ok (5, response), s)
    → Carries json (noise_handshake_response response (to_bytes 16 5))
unfolding process_handshake respond to_bytes
welcome-Carries request response s e =
    let said : response ≡ 7 ∷ [] = ground arith in
    rw said (record { back = refl; fits = omega arith })

attestation-Carries :
    Carries json (attestation (generate_attestation no_hash [] (static_public_key toy host.noise)))
unfolding static_public_key
attestation-Carries = record { back = refl; fits = omega arith }

connect-Linked_example :
    (c' : NoiseClient toy) × (w' : Host toy) × (connect json toy
        (Host toy)
        (serve json no_hash [] services toy 5)
        no_hash
        (record { noise = new_client toy; worker = host })
      ≡ (ok tt, record { noise = c'; worker = w' }))
    × (w'.session_id ≡ some 5)
    × Linked toy toy_steps c' w'.noise 5
connect-Linked_example =
    connect-Linked json no_hash [] services toy 5 host toy_steps toy_handshakes (omega arith)
      (record { back = refl; fits = omega arith }) attestation-Carries hello-Carries welcome-Carries
