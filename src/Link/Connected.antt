-- ===== src/Link/Connected.antt =====
-- The API connects to a worker: attestation, handshake, and a session that both sides have.
use sonotxt_rust.Base.{ℕ, ◌^◌, ◌<◌, ◌≡◌, refl, some, [], ◌++◌, arith}
use sonotxt_rust.Base.Bytes.{Bytes, to_bytes, of_bytes-to_bytes, length-to_bytes}
use sonotxt_rust.Base.Text.{eq_text_refl}
use sonotxt_rust.Base.Errors.{ok}
use sonotxt_rust.Base.Action.{◌>>=◌}
use sonotxt_rust.Wire.{
  write_message, attestation_request, attestation, noise_handshake, noise_handshake_response,
}
use sonotxt_rust.Noise.{Snow}
use sonotxt_rust.Noise.RoundTrip.{InStep}
use sonotxt_rust.Noise.Sessions.{
  NoiseClient, NoiseServer, new_client, initiate_handshake, complete_handshake, process_handshake,
  static_public_key,
}
use sonotxt_rust.Noise.Exchange.{Handshakes, Linked, handshake-Linked}
use sonotxt_rust.Link.{Json}
use sonotxt_rust.Link.Processor.{Services}
use sonotxt_rust.Link.Server.{Host, generate_attestation, serve, answer}
use sonotxt_rust.Link.Client.{
  QuicWorkerConn, verify_attestation, connect, request_attestation, send_noise_handshake,
}
use sonotxt_rust.Link.Carried.{Carries, serve-write, exchange-replied}

-- The attestation that a worker makes is accepted, whatever its key.
attested :
    (sha256 : Bytes → Bytes) (quote static_key : Bytes)
    → verify_attestation sha256 (generate_attestation sha256 quote static_key) ≡ ok tt
unfolding verify_attestation
attested sha256 quote static_key = ground (arith, eq_text_refl (sha256 (quote ++ static_key)))

module _ (json : Json) (sha256 : Bytes → Bytes) (quote : Bytes) (services : Services) (snow : Snow)
    (drawn : ℕ) (w : Host snow) where
  abbrev at_worker : Bytes → Host snow → Bytes × Host snow
  at_worker = serve json sha256 quote services snow drawn

  abbrev key : Bytes
  key = static_public_key snow w.noise

  abbrev fresh : QuicWorkerConn snow (Host snow)
  fresh = record { noise = new_client snow; worker = w }

  request_run :
      Carries json attestation_request
      → Carries json (attestation (generate_attestation sha256 quote key))
      → request_attestation json snow (Host snow) at_worker fresh
        ≡ (ok (generate_attestation sha256 quote key), fresh)
  unfolding request_attestation ◌>>=◌
  request_run there here = ground (
    arith,
    exchange-replied json snow (Host snow) at_worker fresh w attestation_request
        (attestation (generate_attestation sha256 quote key)) here
        (serve-write json sha256 quote services snow drawn attestation_request w w _ there refl),
  )

  module _ (c1 c2 : NoiseClient snow) (s : NoiseServer snow) (request response : Bytes)
      (sent : initiate_handshake snow (new_client snow) key ≡ (ok request, c1))
      (answered : process_handshake snow w.noise drawn request ≡ (ok (drawn, response), s))
      (finished : complete_handshake snow c1 response drawn ≡ (ok tt, c2)) where
    abbrev after : Host snow
    after = record { noise = s; session_id = some drawn }

    handshake_answered :
        answer json sha256 quote services snow drawn (noise_handshake request) w ≡ (
          ok (
              write_message json.of_message []
                (noise_handshake_response response (to_bytes 16 drawn))),
          after,
        )
    handshake_answered = ground arith

    handshake_run :
        drawn < 256 ^ 16
        → Carries json (noise_handshake request)
        → Carries json (noise_handshake_response response (to_bytes 16 drawn))
        → send_noise_handshake json snow
            (Host snow)
            at_worker
            request
            (record { noise = c1; worker = w })
          ≡ (ok (response, drawn), record { noise = c1; worker = after })
    unfolding send_noise_handshake ◌>>=◌
    handshake_run small there here = ground (
      arith,
      length-to_bytes 16 drawn,
      of_bytes-to_bytes 16 drawn small,
      exchange-replied json snow (Host snow) at_worker (record { noise = c1; worker = w }) after
          (noise_handshake request) (noise_handshake_response response (to_bytes 16 drawn)) here
          (serve-write json sha256 quote services snow drawn (noise_handshake request) w after _
            there handshake_answered),
    )

    connect_run :
        request_attestation json snow (Host snow) at_worker fresh
          ≡ (ok (generate_attestation sha256 quote key), fresh)
        → send_noise_handshake json snow
            (Host snow)
            at_worker
            request
            (record { noise = c1; worker = w })
          ≡ (ok (response, drawn), record { noise = c1; worker = after })
        → connect json snow (Host snow) at_worker sha256 fresh
          ≡ (ok tt, record { noise = c2; worker = after })
    unfolding connect ◌>>=◌
    connect_run first second = ground (arith, attested sha256 quote key, first, second)

  -- With serde_json and a snow as documented, and an id drawn from 16 bytes, `connect` succeeds with
  -- a worker whatever its key, and leaves the API and the worker linked by the session drawn.
  pub connect-Linked :
      (steps : InStep snow)
      → Handshakes snow steps
      → drawn < 256 ^ 16
      → Carries json attestation_request
      → Carries json (attestation (generate_attestation sha256 quote key))
      → ((request : Bytes) (c1 : NoiseClient snow)
          → initiate_handshake snow (new_client snow) key ≡ (ok request, c1)
          → Carries json (noise_handshake request))
      → ((request response : Bytes) (s : NoiseServer snow)
          → process_handshake snow w.noise drawn request ≡ (ok (drawn, response), s)
          → Carries json (noise_handshake_response response (to_bytes 16 drawn)))
      → (c' : NoiseClient snow) × (w' : Host snow) × (connect json snow
            (Host snow)
            at_worker
            sha256
            fresh
          ≡ (ok tt, record { noise = c'; worker = w' }))
        × (w'.session_id ≡ some drawn)
        × Linked snow steps c' w'.noise drawn
  connect-Linked steps laws small asks attests hands returns =
      let (request, response, c1, c2, s, sent, answered, finished, l) =
        handshake-Linked snow steps laws w.noise drawn in
      (
        c2,
        after c1 c2 s request response sent answered finished,
        connect_run c1 c2 s request response sent answered finished (request_run asks attests) (
            handshake_run c1 c2 s request response sent answered finished small
              (hands request c1 sent) (returns request response s answered)),
        refl,
        l,
      )
