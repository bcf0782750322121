-- ===== src/Login/Ss58.antt =====
-- `decode_ss58` of sonotxt-api/src/services/user_auth.rs, and `ss58_to_h160` of routes/sono.rs: the
-- public key in a Polkadot address, and the EVM address that belongs to it.
use sonotxt_rust.Base.{
  ℕ, ◌+◌, ◌-◌, zero, suc, ◌≡◌, ◌↔◌, refl, sym, ap, subst, true, not, List, [], ◌∷◌, ◌++◌, arith,
  ltb, ◌==◌, if◌then◌else◌, length, get_or, take, drop, slice, length-append, length-take,
  length-drop, take-append-drop, take-append, drop-append, slice-append, append_assoc,
}
use sonotxt_rust.Base.Bytes.{Bytes}
use sonotxt_rust.Base.Text.{Text, codes, as_bytes, eq_text, eq_text_refl, eq_of_eq_text}
use sonotxt_rust.Base.Errors.{Result, ok, err}
use sonotxt_rust.Login.{Env, Ss58Error, invalid_base58, too_short, invalid_length, invalid_checksum}

-- The length of the network's prefix, by its first byte.
abbrev pub prefix_len : Bytes → ℕ
prefix_len bytes = if ltb (get_or bytes 0 0) 64 then 1 else 2

take-nil {ℓ} : {A : Type ℓ} (n : ℕ) → take {A = A} n [] ≡ []
take-nil zero = refl
take-nil (suc n) = refl

take-append-take {ℓ} :
    {A : Type ℓ} (m n : ℕ) (xs : List A) → take m xs ++ take n (drop m xs) ≡ take (m + n) xs
take-append-take zero n xs = let e : n ≡ 0 + n = omega arith in ap (λ k. take k xs) e
take-append-take (suc m) n [] = let e : suc m + n ≡ suc (m + n) = omega arith in rw e (take-nil n)
take-append-take (suc m) n (x ∷ xs) =
    let e : suc m + n ≡ suc (m + n) = omega arith in rw e (ap (◌∷◌ x) (take-append-take m n xs))

-- Where the parts of a valid address are found.
parts_at :
    (prefix pubkey rest : Bytes) (p : ℕ)
    → length prefix ≡ p
    → length pubkey ≡ 32
    → (take (p + 32) ((prefix ++ pubkey) ++ rest) ≡ prefix ++ pubkey)
      × (drop (p + 32) ((prefix ++ pubkey) ++ rest) ≡ rest)
      × (slice ((prefix ++ pubkey) ++ rest) p (p + 32) ≡ pubkey)
parts_at prefix pubkey rest p start long =
    let n : p + 32 ≡ length (prefix ++ pubkey) = omega (arith, length-append prefix pubkey) in
    (
      rw n (take-append (prefix ++ pubkey) rest),
      rw n (drop-append (prefix ++ pubkey) rest),
      rw (append_assoc prefix pubkey rest)
          (slice-append prefix pubkey rest p (p + 32) (omega arith) (omega arith)),
    )

module _ (env : Env) where
  open env use {base58_decode, blake2b}

  -- The first two bytes of the hash of a prefix with its key.
  abbrev pub checksum : Bytes → Bytes
  checksum bytes = take 2 (blake2b (as_bytes (codes "SS58PRE") ++ bytes))

  -- What follows the decoding of base58.
  unfoldable pub decode_bytes : Bytes → Result Ss58Error Bytes
  decode_bytes bytes =
      if ltb (length bytes) 35
      then err too_short
      else if not (length bytes == prefix_len bytes + 32 + 2)
      then err (invalid_length (length bytes))
      else if not (
          eq_text (checksum (take (prefix_len bytes + 32) bytes))
            (drop (prefix_len bytes + 32) bytes))
      then err invalid_checksum
      else ok (slice bytes (prefix_len bytes) (prefix_len bytes + 32))

  unfoldable pub decode_ss58 : Text → Result Ss58Error Bytes
  unfolding decode_bytes
  decode_ss58 address = elim (base58_decode address) [
    | err e ↦ err (invalid_base58 e)
    | ok bytes ↦ decode_bytes bytes
  ]

  -- The first 20 bytes of the key, if the address is valid.
  unfoldable pub ss58_to_h160 : Text → Result Ss58Error Bytes
  unfolding decode_ss58
  ss58_to_h160 address = elim (decode_ss58 address) [
    | err e ↦ err e
    | ok pubkey ↦ ok (take 20 pubkey)
  ]

  -- The bytes of a valid address: a prefix, the key, and their checksum.
  abbrev pub IsEncoded : Bytes → Bytes → Type 0
  IsEncoded pubkey bytes =
      (prefix : Bytes) × (length prefix ≡ prefix_len bytes)
      × (length pubkey ≡ 32)
      × (bytes ≡ (prefix ++ pubkey) ++ checksum (prefix ++ pubkey))

  IsEncoded-decode :
      (pubkey bytes : Bytes) → decode_bytes bytes ≡ ok pubkey → IsEncoded pubkey bytes
  unfolding decode_bytes
  IsEncoded-decode pubkey bytes h =
      let p = prefix_len bytes in
      let same : slice bytes p (p + 32) ≡ pubkey = ground arith in
      let long : length bytes ≡ p + 34 = ground arith in
      let sum : eq_text (checksum (take (p + 32) bytes)) (drop (p + 32) bytes) ≡ true =
        ground arith in
      let n : p + 32 - p ≡ 32 = omega arith in
      let front : take p bytes ++ pubkey ≡ take (p + 32) bytes =
        rw (← same, n) (take-append-take p 32 bytes) in
      (
        take p bytes,
        omega (arith, length-take p bytes),
        rw (← same, n) (omega (arith, length-take 32 (drop p bytes), length-drop p bytes)),
        rw (front, eq_of_eq_text _ _ sum) (sym (take-append-drop (p + 32) bytes)),
      )

  decode-IsEncoded :
      (pubkey bytes : Bytes)
      → ((bs : Bytes) → length (blake2b bs) ≡ 64)
      → IsEncoded pubkey bytes
      → decode_bytes bytes ≡ ok pubkey
  unfolding decode_bytes
  decode-IsEncoded pubkey bytes sized (prefix, start, long, e) =
      let front = prefix ++ pubkey in
      let parts = parts_at prefix pubkey (checksum front) (prefix_len bytes) start long in
      let parts' =
        subst
          (λ b.
            (take (prefix_len bytes + 32) b ≡ front)
            × (drop (prefix_len bytes + 32) b ≡ checksum front)
            × (slice b (prefix_len bytes) (prefix_len bytes + 32) ≡ pubkey))
          (sym e) parts in
      let n : length bytes ≡ prefix_len bytes + 34 = omega (
        arith,
        ap (λ (b : Bytes). length b) e,
        length-append front (checksum front),
        length-append prefix pubkey,
        length-take 2 (blake2b (as_bytes (codes "SS58PRE") ++ front)),
        sized (as_bytes (codes "SS58PRE") ++ front),
      ) in
      let sum : eq_text (checksum (take (prefix_len bytes + 32) bytes))
            (drop (prefix_len bytes + 32) bytes)
          ≡ true =
        rw (parts'.0, parts'.1) (eq_text_refl (checksum front)) in
      ground (arith, n, sum, parts'.2)

  -- If base58 decodes an address, its key is decoded exactly from a prefix of the network's length,
  -- the 32 bytes of the key and the first two bytes of their hash, which has 64 bytes; and the EVM
  -- address is then the first 20 bytes of the key.
  pub decode_ss58_iff :
      (address : Text) (pubkey bytes : Bytes)
      → ((bs : Bytes) → length (blake2b bs) ≡ 64)
      → base58_decode address ≡ ok bytes
      → ((decode_ss58 address ≡ ok pubkey) ↔ IsEncoded pubkey bytes)
        × (IsEncoded pubkey bytes → ss58_to_h160 address ≡ ok (take 20 pubkey))
  unfolding decode_ss58 ss58_to_h160
  decode_ss58_iff address pubkey bytes sized e = (
    (
      λ h. IsEncoded-decode pubkey bytes (ground arith),
      λ h. ground (arith, decode-IsEncoded pubkey bytes sized h),
    ),
    λ h. ground (arith, decode-IsEncoded pubkey bytes sized h),
  )
