-- ===== src/Noise/Toy.antt =====
-- A snow for tests: 16 zero bytes are the tag, and a transport counts the messages of each
-- direction.
use sonotxt_rust.Base.{
  ℕ, ◌+◌, ◌-◌, ◌≤◌, ◌≡◌, refl, ap, [], ◌∷◌, ◌++◌, arith, length, length-append, take, take-append,
  replicate, leb, if◌then◌else◌,
}
use sonotxt_rust.Base.Errors.{ok, err}
use sonotxt_rust.Base.Bytes.{Bytes}
use sonotxt_rust.Noise.{Snow}
use sonotxt_rust.Noise.RoundTrip.{InStep}
use sonotxt_rust.Noise.Exchange.{Handshakes}

abbrev pub tag : Bytes
tag = replicate 16 0

abbrev pub toy : Snow
toy = record {
  Failure = Unit {0};
  Keypair = ℕ;
  Handshake = ℕ;
  Transport = ℕ × ℕ;
  public = λ k. k ∷ [];
  build_initiator = λ key. ok 0;
  build_responder = λ k. ok k;
  write_handshake = λ h. ok (h ∷ [], h);
  read_handshake = λ h message. ok h;
  into_transport = λ h. ok (0, 0);
  write = λ t p. if leb (length p + 16) 65535 then (ok (p ++ tag), (t.0 + 1, t.1)) else (err tt, t);
  read = λ t c. (ok (take (length c - 16) c), (t.0, t.1 + 1));
}

pub toy-read : (p : Bytes) → take (length (p ++ tag) - 16) (p ++ tag) ≡ p
toy-read p =
    let e : length (p ++ tag) - 16 ≡ length p = omega (arith, length-append p tag) in
    rw e (take-append p tag)

pub toy-write :
    (t : ℕ × ℕ) (p : Bytes)
    → length p + 16 ≤ 65535
    → Snow.write toy t p ≡ (ok (p ++ tag), (t.0 + 1, t.1))
toy-write t p fits = ground arith

abbrev pub toy_steps : InStep toy
toy_steps = record {
  Synced = λ s r. (s.0 ≡ r.1) × (s.1 ≡ r.0);
  reversed = λ s r h. (omega (arith, h.1), omega (arith, h.0));
  transmits = λ s r p h fits. (
    p ++ tag,
    (s.0 + 1, s.1),
    (r.0, r.1 + 1),
    toy-write s p fits,
    ap (λ b. (ok b, (r.0, r.1 + 1))) (toy-read p),
    length-append p tag,
    (omega (arith, h.0), h.1),
  );
}

abbrev pub toy_handshakes : Handshakes toy toy_steps
toy_handshakes = record {
  agrees = λ k. (
    0,
    0,
    0,
    k,
    k,
    k,
    0 ∷ [],
    k ∷ [],
    (0, 0),
    (0, 0),
    refl,
    refl,
    refl,
    refl,
    refl,
    refl,
    refl,
    refl,
    (refl, refl),
  );
}
