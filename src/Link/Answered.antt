-- ===== src/Link/Answered.antt =====
-- Both sides together: a connection is made, its requests are answered, and a notice is not.
use sonotxt_rust.Base.{ℕ, ◌-◌, ◌*◌, ◌^◌, ◌≤◌, ◌≡◌, refl, ap, some, [], arith, length, inl, inr}
use sonotxt_rust.Base.Bytes.{Bytes}
use sonotxt_rust.Base.Errors.{ApiError, ok, err, Result-cases}
use sonotxt_rust.Base.Action.{◌>>=◌}
use sonotxt_rust.Wire.{write_message, encrypted_request, encrypted_response, job_notify}
use sonotxt_rust.Noise.{Snow, max_chunk_size}
use sonotxt_rust.Noise.RoundTrip.{InStep}
use sonotxt_rust.Noise.Sessions.{
  NoiseClient, NoiseServer, client_encrypt, client_decrypt, server_encrypt, server_decrypt,
}
use sonotxt_rust.Noise.Exchange.{
  Linked, server_decrypt-client_encrypt, client_decrypt-server_encrypt,
}
use sonotxt_rust.Link.{Json, EncryptedTtsRequest}
use sonotxt_rust.Link.Processor.{Services, run_tts}
use sonotxt_rust.Link.Server.{Host, serve, answer}
use sonotxt_rust.Link.Client.{encrypted_tts, notify_job}
use sonotxt_rust.Link.Carried.{Carries, serve-write, exchange-replied, exchange-silent}

module _ (json : Json) (sha256 : Bytes → Bytes) (quote : Bytes) (services : Services) (snow : Snow)
    (steps : InStep snow) (drawn : ℕ) where
  abbrev at_worker : Bytes → Host snow → Bytes × Host snow
  at_worker = serve json sha256 quote services snow drawn

  module _ (c c1 c2 : NoiseClient snow) (w : Host snow) (s1 s2 : NoiseServer snow) (sid : ℕ)
      (r : EncryptedTtsRequest) (request reply : Bytes) (open_session : w.session_id ≡ some sid)
      (read_request : json.to_tts_request (json.of_tts_request r) ≡ some r)
      (read_response : json.to_tts_response (json.of_tts_response (run_tts services.speech r))
        ≡ some (run_tts services.speech r))
      (sent : client_encrypt snow c (json.of_tts_request r) ≡ (ok request, c1))
      (arrived : server_decrypt snow w.noise sid request ≡ (ok (json.of_tts_request r), s1))
      (replied : server_encrypt snow s1 sid (json.of_tts_response (run_tts services.speech r))
        ≡ (ok reply, s2))
      (returned : client_decrypt snow c1 reply
        ≡ (ok (json.of_tts_response (run_tts services.speech r)), c2)) where
    tts_answered : answer json sha256 quote services snow drawn (encrypted_request request) w ≡ (
      ok (write_message json.of_message [] (encrypted_response reply)),
      record w { noise = s2 },
    )
    unfolding ◌>>=◌
    tts_answered = ground arith

    tts_run :
        Carries json (encrypted_request request)
        → Carries json (encrypted_response reply)
        → encrypted_tts json snow (Host snow) at_worker r (record { noise = c; worker = w }) ≡ (
          ok (run_tts services.speech r),
          record { noise = c2; worker = record w { noise = s2 } },
        )
    unfolding encrypted_tts ◌>>=◌
    tts_run there here = ground (
      arith,
      exchange-replied json snow (Host snow) at_worker (record { noise = c1; worker = w })
          (record w { noise = s2 }) (encrypted_request request) (encrypted_response reply) here
          (serve-write json sha256 quote services snow drawn (encrypted_request request) w
            (record w { noise = s2 }) _ there tts_answered),
    )

  -- With serde_json and a snow as documented, a request for synthesis over a linked session, whose
  -- JSON and whose response's fit the transport and the length prefix, returns what `run_tts` makes
  -- of the request on the worker, and the session stays linked.
  pub encrypted_tts-run_tts :
      (c : NoiseClient snow) (w : Host snow) (sid : ℕ) (r : EncryptedTtsRequest)
      → w.session_id ≡ some sid
      → Linked snow steps c w.noise sid
      → json.to_tts_request (json.of_tts_request r) ≡ some r
      → json.to_tts_response (json.of_tts_response (run_tts services.speech r))
        ≡ some (run_tts services.speech r)
      → length (json.of_tts_request r) ≤ max_chunk_size * (2 ^ 32 - 1)
      → length (json.of_tts_response (run_tts services.speech r)) ≤ max_chunk_size * (2 ^ 32 - 1)
      → ((request : Bytes) (c1 : NoiseClient snow)
          → client_encrypt snow c (json.of_tts_request r) ≡ (ok request, c1)
          → Carries json (encrypted_request request))
      → ((s s2 : NoiseServer snow) (reply : Bytes)
          → server_encrypt snow s sid (json.of_tts_response (run_tts services.speech r))
            ≡ (ok reply, s2)
          → Carries json (encrypted_response reply))
      → (c' : NoiseClient snow) × (w' : Host snow) × (encrypted_tts json snow
            (Host snow)
            at_worker
            r
            (record { noise = c; worker = w })
          ≡ (ok (run_tts services.speech r), record { noise = c'; worker = w' }))
        × (w'.session_id ≡ some sid)
        × Linked snow steps c' w'.noise sid
  encrypted_tts-run_tts c w sid r opened l read_request read_response fits fits' there here =
      let (request, c1, s1, sent, arrived, l1) =
        server_decrypt-client_encrypt snow steps c w.noise sid (json.of_tts_request r) l fits in
      let (reply, c2, s2, replied, returned, l2) =
        client_decrypt-server_encrypt snow steps c1 s1 sid
          (json.of_tts_response (run_tts services.speech r)) l1 fits' in
      (
        c2,
        record w { noise = s2 },
        tts_run c c1 c2 w s1 s2 sid r request reply opened read_request read_response sent arrived
            replied returned (there request c1 sent) (here s1 s2 reply replied),
        opened,
        l2,
      )

module _ (json : Json) (sha256 : Bytes → Bytes) (quote : Bytes) (services : Services) (snow : Snow)
    (drawn : ℕ) where
  abbrev answering : Bytes → Host snow → Bytes × Host snow
  answering = serve json sha256 quote services snow drawn

  -- The worker leaves a notice of a job unanswered: whatever the session, the notice that reaches
  -- it makes the call end in an error.
  pub notify_job_unanswered :
      (c : NoiseClient snow) (w : Host snow) (job_id : Bytes)
      → ((sent : Bytes) (c1 : NoiseClient snow)
          → client_encrypt snow c job_id ≡ (ok sent, c1)
          → Carries json (job_notify sent))
      → (notify_job json snow (Host snow) answering job_id (record { noise = c; worker = w })).0
        ≡ err ApiError.internal_error
  unfolding notify_job ◌>>=◌
  notify_job_unanswered c w job_id there = elim (Result-cases (client_encrypt snow c job_id).0) [
    | inl (sent, e) ↦
        let c1 : NoiseClient snow = (client_encrypt snow c job_id).1 in
        let m : Carries json (job_notify sent) = there sent c1 (ap (λ r. (r, c1)) e) in
        ground (
          arith,
          exchange-silent json snow (Host snow) answering (record { noise = c1; worker = w }) w
              (job_notify sent)
              (serve-write json sha256 quote services snow drawn (job_notify sent) w w [] m refl),
        )
    | inr (e, failed) ↦ ground arith
  ]
