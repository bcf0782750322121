-- ===== src/Noise/Exchange.antt =====
-- A client and a server after the handshake: what either side encrypts, the other decrypts, as
-- often as they like, and no other session of the server is touched.
use sonotxt_rust.Base.{ℕ, ◌*◌, ◌-◌, ◌^◌, ◌≤◌, ◌≡◌, ◌≢◌, refl, none, some, arith, length}
use sonotxt_rust.Base.Errors.{ok, err}
use sonotxt_rust.Base.Bytes.{Bytes}
use sonotxt_rust.Base.Assoc.{lookup, insert, lookup-erase, lookup-insert_self, lookup-insert_ne}
use sonotxt_rust.Noise.{Snow, no_session, max_chunk_size}
use sonotxt_rust.Noise.RoundTrip.{InStep, decrypt_chunked-encrypt_chunked}
use sonotxt_rust.Noise.Sessions.{
  NoiseClient, NoiseServer, new_client, initiate_handshake, complete_handshake, client_encrypt,
  client_decrypt, static_public_key, respond, process_handshake, server_encrypt, server_decrypt,
  remove_session,
}

-- What snow documents of the handshake NK: with the server's public key on the one side and its
-- key pair on the other, the two messages are exchanged and the transports are in step.
pub record Handshakes (snow : Snow) (steps : InStep snow) : Type 1 where
  pub agrees :
      (k : Snow.Keypair snow)
      → (i i' i'' r r' r'' : Snow.Handshake snow) × (request response : Bytes) × (t
          u : Snow.Transport snow)
        × (Snow.build_initiator snow (Snow.public snow k) ≡ ok i)
        × (Snow.write_handshake snow i ≡ ok (request, i'))
        × (Snow.build_responder snow k ≡ ok r)
        × (Snow.read_handshake snow r request ≡ ok r')
        × (Snow.write_handshake snow r' ≡ ok (response, r''))
        × (Snow.read_handshake snow i' response ≡ ok i'')
        × (Snow.into_transport snow i'' ≡ ok t)
        × (Snow.into_transport snow r'' ≡ ok u)
        × InStep.Synced steps t u

module _ (snow : Snow) (steps : InStep snow) where
  open snow use {Transport}
  open steps use {Synced, reversed}

  -- The client's transport and that of one session of the server are in step.
  pub record Linked (c : NoiseClient snow) (s : NoiseServer snow) (sid : ℕ) : Type 0 where
    pub t : Transport
    pub u : Transport
    pub client_side : c.transport ≡ some t
    pub server_side : lookup sid s.sessions ≡ some u
    pub in_step : Synced t u

  -- With a snow whose handshake messages are exchanged as documented, the handshake of a fresh
  -- client with a server links the client and the session drawn.
  pub handshake-Linked :
      Handshakes snow steps
      → (s : NoiseServer snow) (sid : ℕ)
      → (request response : Bytes) × (c c' : NoiseClient snow) × (s' : NoiseServer snow)
        × (initiate_handshake snow (new_client snow) (static_public_key snow s) ≡ (ok request, c))
        × (process_handshake snow s sid request ≡ (ok (sid, response), s'))
        × (complete_handshake snow c response sid ≡ (ok tt, c'))
        × Linked c' s' sid
  unfolding initiate_handshake new_client static_public_key process_handshake respond
      complete_handshake
  handshake-Linked laws s sid =
      let (i, i', i'', r, r', r'', request, response, t, u, p1, p2, p3, p4, p5, p6, p7, p8, sync) =
        Handshakes.agrees laws s.static_keypair in
      (
        request,
        response,
        record { handshake = some i'; transport = none; session_id = none },
        record { handshake = none; transport = some t; session_id = some sid },
        record s { sessions = insert sid u s.sessions },
        ground arith,
        ground arith,
        ground arith,
        record {
          t = t;
          u = u;
          client_side = refl;
          server_side = lookup-insert_self sid u s.sessions;
          in_step = sync;
        },
      )

  -- What a linked client encrypts, in fewer than 2^32 chunks, the server decrypts for that
  -- session, and the two stay linked.
  pub server_decrypt-client_encrypt :
      (c : NoiseClient snow) (s : NoiseServer snow) (sid : ℕ) (p : Bytes)
      → Linked c s sid
      → length p ≤ max_chunk_size * (2 ^ 32 - 1)
      → (sent : Bytes) × (c' : NoiseClient snow) × (s' : NoiseServer snow) × (client_encrypt snow c
            p
          ≡ (ok sent, c'))
        × (server_decrypt snow s sid sent ≡ (ok p, s'))
        × Linked c' s' sid
  unfolding client_encrypt server_decrypt
  server_decrypt-client_encrypt c s sid p l fits =
      let (sent, t', u', e, d, sync) =
        decrypt_chunked-encrypt_chunked snow steps l.t l.u p l.in_step fits in
      (
        sent,
        record c { transport = some t' },
        record s { sessions = insert sid u' s.sessions },
        ground (arith, l.client_side),
        ground (arith, l.server_side),
        record {
          t = t';
          u = u';
          client_side = refl;
          server_side = lookup-insert_self sid u' s.sessions;
          in_step = sync;
        },
      )

  -- What the server encrypts for a session, in fewer than 2^32 chunks, the linked client
  -- decrypts, and the two stay linked.
  pub client_decrypt-server_encrypt :
      (c : NoiseClient snow) (s : NoiseServer snow) (sid : ℕ) (p : Bytes)
      → Linked c s sid
      → length p ≤ max_chunk_size * (2 ^ 32 - 1)
      → (sent : Bytes) × (c' : NoiseClient snow) × (s' : NoiseServer snow) × (server_encrypt snow s
            sid p
          ≡ (ok sent, s'))
        × (client_decrypt snow c sent ≡ (ok p, c'))
        × Linked c' s' sid
  unfolding client_decrypt server_encrypt
  client_decrypt-server_encrypt c s sid p l fits =
      let (sent, u', t', e, d, sync) =
        decrypt_chunked-encrypt_chunked snow steps l.u l.t p (reversed l.t l.u l.in_step) fits in
      (
        sent,
        record c { transport = some t' },
        record s { sessions = insert sid u' s.sessions },
        ground (arith, l.server_side),
        ground (arith, l.client_side),
        record {
          t = t';
          u = u';
          client_side = refl;
          server_side = lookup-insert_self sid u' s.sessions;
          in_step = reversed u' t' sync;
        },
      )

module _ (snow : Snow) (s : NoiseServer snow) (sid : ℕ) where
  -- No call of the server for one session changes the transport of another.
  pub sessions_apart :
      (other : ℕ) (bytes : Bytes)
      → sid ≢ other
      → (lookup other (server_decrypt snow s sid bytes).1.sessions ≡ lookup other s.sessions)
        × (lookup other (server_encrypt snow s sid bytes).1.sessions ≡ lookup other s.sessions)
        × (lookup other (process_handshake snow s sid bytes).1.sessions ≡ lookup other s.sessions)
        × (lookup other (remove_session snow s sid).sessions ≡ lookup other s.sessions)
  unfolding server_decrypt server_encrypt process_handshake remove_session
  sessions_apart other bytes ne = (
    grind (arith, lookup-insert_ne),
    grind (arith, lookup-insert_ne),
    grind (arith, lookup-insert_ne),
    ground (arith, lookup-erase sid other s.sessions),
  )

  -- A removed session decrypts nothing, and the server stays as it is.
  pub server_decrypt-remove_session :
      (bytes : Bytes)
      → server_decrypt snow (remove_session snow s sid) sid bytes
        ≡ (err no_session, remove_session snow s sid)
  unfolding server_decrypt remove_session
  server_decrypt-remove_session bytes = ground (arith, lookup-erase sid sid s.sessions)
