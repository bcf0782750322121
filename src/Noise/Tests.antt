-- ===== src/Noise/Tests.antt =====
-- A run of the chunked transport of noise.rs, with the toy snow.
use sonotxt_rust.Base.{ℕ, ◌≡◌, refl, [], ◌∷◌, arith}
use sonotxt_rust.Base.Errors.{ok}
use sonotxt_rust.Base.Bytes.{Bytes}
use sonotxt_rust.Noise.{encrypt_chunked, decrypt_chunked}
use sonotxt_rust.Noise.Toy.{toy, toy_steps}
use sonotxt_rust.Noise.RoundTrip.{decrypt_chunked-encrypt_chunked}

decrypt_chunked-encrypt_chunked_example :
    (c : Bytes) × (s' r' : ℕ × ℕ) × (encrypt_chunked toy (2, 9) (1 ∷ 2 ∷ 3 ∷ []) ≡ (ok c, s'))
    × (decrypt_chunked toy (9, 2) c ≡ (ok (1 ∷ 2 ∷ 3 ∷ []), r'))
    × ((s'.0 ≡ r'.1) × (s'.1 ≡ r'.0))
decrypt_chunked-encrypt_chunked_example =
    decrypt_chunked-encrypt_chunked toy toy_steps (2, 9) (9, 2) (1 ∷ 2 ∷ 3 ∷ []) (refl, refl)
      (omega arith)
