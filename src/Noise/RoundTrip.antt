-- ===== src/Noise/RoundTrip.antt =====
-- What one side encrypts the other decrypts, in any number of chunks, and they stay in step.
use sonotxt_rust.Base.{
  ℕ, suc, ◌+◌, ◌*◌, ◌-◌, ◌%◌, ◌^◌, ◌≤◌, ◌<◌, ◌≡◌, ap, ◌∙◌, sym, List, [], ◌∷◌, ◌++◌, append_assoc,
  append-nil, flatten, arith, length, length-append, slice, slice-append, All, le→ltb,
}
use sonotxt_rust.Base.Errors.{ok}
use sonotxt_rust.Base.Bytes.{
  Bytes, u32_to_le_bytes, u32_from_le_bytes, length-u32_to_le_bytes, u32_from-u32_to,
  u32_from_le_bytes-append,
}
use sonotxt_rust.Noise.{
  Snow, max_chunk_size, encrypt_loop, encrypt_chunked, decrypt_chunk, decrypt_loop, decrypt_chunked,
}
use sonotxt_rust.Noise.Chunks.{chunks, flatten-chunks, All-chunks, length-chunks}

-- What snow documents of two transport states in step, both ways: a message of up to 65535 bytes
-- with its 16 bytes of tag is written and read back, and the states stay in step.
pub record InStep (snow : Snow) : Type 1 where
  pub Synced : Snow.Transport snow → Snow.Transport snow → Type 0
  pub reversed : (s r : Snow.Transport snow) → Synced s r → Synced r s
  pub transmits :
      (s r : Snow.Transport snow) (p : Bytes)
      → Synced s r
      → length p + 16 ≤ 65535
      → (c : Bytes) × (s' r' : Snow.Transport snow) × (Snow.write snow s p ≡ (ok c, s'))
        × (Snow.read snow r c ≡ (ok p, r'))
        × (length c ≡ length p + 16)
        × Synced s' r'

abbrev header : Bytes → Bytes
header ciphertext = u32_to_le_bytes (length ciphertext % 2 ^ 32)

abbrev framed : Bytes → Bytes → Bytes → Bytes
framed before ct after = before ++ (header ct ++ (ct ++ after))

regroup :
    (before ct after : Bytes) → framed before ct after ≡ ((before ++ header ct) ++ ct) ++ after
regroup before ct after =
    sym
      (append_assoc (before ++ header ct) ct after ∙ append_assoc before (header ct) (ct ++ after))

length-front :
    (before ct : Bytes) → length ((before ++ header ct) ++ ct) ≡ length before + 4 + length ct
length-front before ct = omega (
  arith,
  length-append (before ++ header ct) ct,
  length-append before (header ct),
  length-u32_to_le_bytes (length ct % 2 ^ 32),
)

module _ (before ct after : Bytes) (fits : length ct < 2 ^ 32) where
  framed_prefix : u32_from_le_bytes (framed before ct after) (length before) ≡ length ct
  framed_prefix =
      u32_from_le_bytes-append before (header ct ++ (ct ++ after))
      ∙ u32_from-u32_to (length ct % 2 ^ 32) (ct ++ after) (omega arith)
      ∙ omega arith

  length-framed : length (framed before ct after) ≡ length before + 4 + length ct + length after
  length-framed = omega (
    arith,
    ap length (regroup before ct after),
    length-append ((before ++ header ct) ++ ct) after,
    length-front before ct,
  )

  slice-framed :
      slice (framed before ct after) (length before + 4) (length before + 4 + length ct) ≡ ct
  slice-framed =
      let e : length (before ++ header ct) ≡ length before + 4 =
        omega
          (arith, length-append before (header ct), length-u32_to_le_bytes (length ct % 2 ^ 32)) in
      rw (← append_assoc before (header ct) (ct ++ after))
        (slice-append (before ++ header ct) ct after _ _ (omega arith) (omega arith))

module _ (snow : Snow) where
  open snow use {Transport, write, read}

  decrypt_chunk_steps :
      (r r' : Transport) (bytes ct p : Bytes) (offset len : ℕ)
      → u32_from_le_bytes bytes offset ≡ len
      → offset + 4 + len ≤ length bytes
      → slice bytes (offset + 4) (offset + 4 + len) ≡ ct
      → read r ct ≡ (ok p, r')
      → decrypt_chunk snow r bytes offset ≡ (ok (p, offset + 4 + len), r')
  unfolding decrypt_chunk
  decrypt_chunk_steps r r' bytes ct p offset len prefix enough cut reads = ground arith

  decrypt_chunk-framed :
      (r r' : Transport) (before ct after p : Bytes)
      → length ct < 2 ^ 32
      → read r ct ≡ (ok p, r')
      → decrypt_chunk snow r (framed before ct after) (length before)
        ≡ (ok (p, length before + 4 + length ct), r')
  decrypt_chunk-framed r r' before ct after p fits reads =
      decrypt_chunk_steps r r' _ ct p (length before) (length ct)
        (framed_prefix before ct after fits) (omega (arith, length-framed before ct after fits))
        (slice-framed before ct after fits) reads

  encrypt_loop-cons :
      (s s1 : Transport) (c ct : Bytes) (cs : List Bytes) (result : Bytes)
      → write s c ≡ (ok ct, s1)
      → encrypt_loop snow s (c ∷ cs) result ≡ encrypt_loop snow s1 cs ((result ++ header ct) ++ ct)
  unfolding encrypt_loop
  encrypt_loop-cons s s1 c ct cs result writes = rw (writes, encrypt_loop) (rw writes)

  decrypt_loop-suc :
      (n : ℕ) (r r1 : Transport) (bytes p result : Bytes) (offset offset' : ℕ)
      → decrypt_chunk snow r bytes offset ≡ (ok (p, offset'), r1)
      → decrypt_loop snow (suc n) r bytes offset result
        ≡ decrypt_loop snow n r1 bytes offset' (result ++ p)
  unfolding decrypt_loop
  decrypt_loop-suc n r r1 bytes p result offset offset' e = rw (e, decrypt_loop) (rw e)

  -- What a run over the chunks `cs` writes, and how it is read back from any place and result.
  abbrev Transmits : Transport → Transport → List Bytes → Bytes → Transport → Transport → Type 0
  Transmits s r cs body s' r' =
      ((result : Bytes) → encrypt_loop snow s cs result ≡ (ok (result ++ body), s'))
      × ((before result : Bytes)
          → decrypt_loop snow (length cs) r (before ++ body) (length before) result
            ≡ (ok (result ++ flatten cs), r'))

  Transmits-cons :
      (s s1 s' r r1 r' : Transport) (c ct body : Bytes) (cs : List Bytes)
      → write s c ≡ (ok ct, s1)
      → read r ct ≡ (ok c, r1)
      → length ct < 2 ^ 32
      → Transmits s1 r1 cs body s' r'
      → Transmits s r (c ∷ cs) (header ct ++ (ct ++ body)) s' r'
  unfolding flatten
  Transmits-cons s s1 s' r r1 r' c ct body cs writes reads fits (sent, received) = (
    λ result.
        encrypt_loop-cons s s1 c ct cs result writes
        ∙ sent ((result ++ header ct) ++ ct)
        ∙ ap (λ b. (ok b, s')) (sym (regroup result ct body)),
    λ before result.
        decrypt_loop-suc (length cs) r r1 _ c result _ _
          (decrypt_chunk-framed r r1 before ct body c fits reads)
        ∙ rw (regroup before ct body, ← length-front before ct)
            (received ((before ++ header ct) ++ ct) (result ++ c)
              ∙ ap (λ b. (ok b, r')) (append_assoc result c (flatten cs))),
  )

  module _ (steps : InStep snow) where
    open steps use {Synced, transmits}

    chunks-Transmits :
        (cs : List Bytes) (s r : Transport)
        → Synced s r
        → All (λ c. length c ≤ max_chunk_size) cs
        → (body : Bytes) × (s' r' : Transport) × Transmits s r cs body s' r' × Synced s' r'
    unfolding encrypt_loop decrypt_loop flatten
    chunks-Transmits [] s r sync small = (
      [],
      s,
      r,
      (
        λ result. ap (λ b. (ok b, s)) (sym (append-nil result)),
        λ before result. ap (λ b. (ok b, r)) (sym (append-nil result)),
      ),
      sync,
    )
    chunks-Transmits (c ∷ cs) s r sync (fits, small) =
        let (ct, s1, r1, writes, reads, len, sync1) = transmits s r c sync (omega arith) in
        let (body, s', r', rest, sync') = chunks-Transmits cs s1 r1 sync1 small in
        (
          header ct ++ (ct ++ body),
          s',
          r',
          Transmits-cons s s1 s' r r1 r' c ct body cs writes reads (omega arith) rest,
          sync',
        )

    decrypt_chunked-header :
        (n : ℕ) (r : Transport) (body : Bytes)
        → n < 2 ^ 32
        → decrypt_chunked snow r (u32_to_le_bytes (n % 2 ^ 32) ++ body)
          ≡ decrypt_loop snow n r (u32_to_le_bytes (n % 2 ^ 32) ++ body) 4 []
    unfolding decrypt_chunked
    decrypt_chunked-header n r body h =
        let count : u32_from_le_bytes (u32_to_le_bytes (n % 2 ^ 32) ++ body) 0 ≡ n =
          u32_from-u32_to (n % 2 ^ 32) body (omega arith) ∙ omega arith in
        rw (
          count,
          le→ltb (length (u32_to_le_bytes (n % 2 ^ 32) ++ body)) 4 (
              omega (
                arith,
                length-append (u32_to_le_bytes (n % 2 ^ 32)) body,
                length-u32_to_le_bytes (n % 2 ^ 32),
              )),
        )

    -- Between two transports in step, every plaintext of fewer than 2^32 chunks is encrypted, and
    -- what is sent decrypts to it, with the transports in step again.
    pub decrypt_chunked-encrypt_chunked :
        (s r : Transport) (p : Bytes)
        → Synced s r
        → length p ≤ max_chunk_size * (2 ^ 32 - 1)
        → (c : Bytes) × (s' r' : Transport) × (encrypt_chunked snow s p ≡ (ok c, s'))
          × (decrypt_chunked snow r c ≡ (ok p, r'))
          × Synced s' r'
    unfolding encrypt_chunked u32_to_le_bytes
    decrypt_chunked-encrypt_chunked s r p sync fits =
        let parts = chunks max_chunk_size p in
        let prefix = u32_to_le_bytes (length parts % 2 ^ 32) in
        let (body, s', r', sent, sync') = chunks-Transmits parts s r sync (All-chunks 64999 p) in
        (
          prefix ++ body,
          s',
          r',
          sent.0 prefix,
          decrypt_chunked-header (length parts) r body (omega (arith, length-chunks 64999 p))
              ∙ sent.1 prefix []
              ∙ ap (λ b. (ok b, r')) (flatten-chunks 64999 p),
          sync',
        )
