-- ===== src/Noise/Sessions.antt =====
-- `NoiseClient` and `NoiseServer` of noise.rs. A session id is a number, drawn by the caller of
-- `process_handshake`; the sessions of the server are a map.
use sonotxt_rust.Base.{ℕ, Option, none, some, []}
use sonotxt_rust.Base.Errors.{Result, ok, err}
use sonotxt_rust.Base.Bytes.{Bytes}
use sonotxt_rust.Base.Assoc.{Assoc, lookup, insert, erase}
use sonotxt_rust.Noise.{
  Snow, NoiseError, snow_failure, no_handshake, not_established, no_session, encrypt_chunked,
  decrypt_chunked,
}

pub record NoiseClient (snow : Snow) : Type 0 where
  pub handshake : Option (Snow.Handshake snow)
  pub transport : Option (Snow.Transport snow)
  pub session_id : Option ℕ

pub record NoiseServer (snow : Snow) : Type 0 where
  pub static_keypair : Snow.Keypair snow
  pub sessions : Assoc (Snow.Transport snow)

module _ (snow : Snow) where
  open snow use {
    Failure, Keypair, Handshake, Transport, public, build_initiator, build_responder,
    write_handshake, read_handshake, into_transport,
  }

  -- `NoiseClient::new`
  unfoldable pub new_client : NoiseClient snow
  new_client = record { handshake = none; transport = none; session_id = none }

  -- `initiate_handshake`: the state changes only if both calls of snow succeed.
  unfoldable pub initiate_handshake :
      NoiseClient snow → Bytes → Result (NoiseError Failure) Bytes × NoiseClient snow
  initiate_handshake c server_static_key = elim (build_initiator server_static_key) [
    | err e ↦ (err (snow_failure e), c)
    | ok initiator ↦ elim (write_handshake initiator) [
      | err e ↦ (err (snow_failure e), c)
      | ok (message, initiator') ↦ (ok message, record c { handshake = some initiator' })
    ]
  ]

  -- `complete_handshake` after `take`: the handshake is gone whatever happens next.
  finish_handshake :
      NoiseClient snow
      → Handshake
      → Bytes
      → ℕ
      → Result (NoiseError Failure) (Unit {0}) × NoiseClient snow
  finish_handshake c initiator server_response sid =
      elim (read_handshake initiator server_response) [
        | err e ↦ (err (snow_failure e), c)
        | ok initiator' ↦ elim (into_transport initiator') [
          | err e ↦ (err (snow_failure e), c)
          | ok t ↦ (ok tt, record c { transport = some t; session_id = some sid })
        ]
      ]

  unfoldable pub complete_handshake :
      NoiseClient snow → Bytes → ℕ → Result (NoiseError Failure) (Unit {0}) × NoiseClient snow
  unfolding finish_handshake
  complete_handshake c server_response sid = elim c.handshake [
    | none ↦ (err no_handshake, c)
    | some initiator ↦
        finish_handshake (record c { handshake = none }) initiator server_response sid
  ]

  -- `NoiseClient::encrypt` and `NoiseClient::decrypt`
  unfoldable pub client_encrypt :
      NoiseClient snow → Bytes → Result (NoiseError Failure) Bytes × NoiseClient snow
  client_encrypt c plaintext = elim c.transport [
    | none ↦ (err not_established, c)
    | some t ↦
        let (r, t') = encrypt_chunked snow t plaintext in (r, record c { transport = some t' })
  ]

  unfoldable pub client_decrypt :
      NoiseClient snow → Bytes → Result (NoiseError Failure) Bytes × NoiseClient snow
  client_decrypt c bytes = elim c.transport [
    | none ↦ (err not_established, c)
    | some t ↦ let (r, t') = decrypt_chunked snow t bytes in (r, record c { transport = some t' })
  ]

  -- `NoiseServer::new` with the key pair that snow generates.
  unfoldable pub new_server : Keypair → NoiseServer snow
  new_server keypair = record { static_keypair = keypair; sessions = [] }

  unfoldable pub static_public_key : NoiseServer snow → Bytes
  static_public_key s = public s.static_keypair

  -- The calls of snow in `process_handshake`: the transport and the response.
  unfoldable pub respond : Keypair → Bytes → Result Failure (Transport × Bytes)
  respond keypair client_msg = elim (build_responder keypair) [
    | err e ↦ err e
    | ok responder ↦ elim (read_handshake responder client_msg) [
      | err e ↦ err e
      | ok responder' ↦ elim (write_handshake responder') [
        | err e ↦ err e
        | ok (response, responder'') ↦ elim (into_transport responder'') [
          | err e ↦ err e
          | ok t ↦ ok (t, response)
        ]
      ]
    ]
  ]

  unfoldable pub process_handshake :
      NoiseServer snow → ℕ → Bytes → Result (NoiseError Failure) (ℕ × Bytes) × NoiseServer snow
  process_handshake s session_id client_msg = elim (respond s.static_keypair client_msg) [
    | err e ↦ (err (snow_failure e), s)
    | ok (t, response) ↦
        (ok (session_id, response), record s { sessions = insert session_id t s.sessions })
  ]

  -- `NoiseServer::decrypt` and `NoiseServer::encrypt`
  unfoldable pub server_decrypt :
      NoiseServer snow → ℕ → Bytes → Result (NoiseError Failure) Bytes × NoiseServer snow
  server_decrypt s session_id bytes = elim (lookup session_id s.sessions) [
    | none ↦ (err no_session, s)
    | some t ↦
        let (r, t') = decrypt_chunked snow t bytes in
        (r, record s { sessions = insert session_id t' s.sessions })
  ]

  unfoldable pub server_encrypt :
      NoiseServer snow → ℕ → Bytes → Result (NoiseError Failure) Bytes × NoiseServer snow
  server_encrypt s session_id plaintext = elim (lookup session_id s.sessions) [
    | none ↦ (err no_session, s)
    | some t ↦
        let (r, t') = encrypt_chunked snow t plaintext in
        (r, record s { sessions = insert session_id t' s.sessions })
  ]

  unfoldable pub remove_session : NoiseServer snow → ℕ → NoiseServer snow
  remove_session s session_id = record s { sessions = erase session_id s.sessions }
