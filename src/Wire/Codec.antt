-- ===== src/Wire/Codec.antt =====
-- What the length prefix of protocol.rs gives: messages come back, whole and in order.
use sonotxt_rust.Base.{
  ℕ, ◌+◌, ◌-◌, ◌%◌, ◌^◌, ◌≤◌, ◌<◌, ◌≡◌, ap, ◌∙◌, Option, some, ◌++◌, append_assoc, arith, length,
  length-append, slice, take-append,
}
use sonotxt_rust.Base.Errors.{ok, err}
use sonotxt_rust.Base.Bytes.{
  Bytes, u32_to_le_bytes, u32_from_le_bytes, length-u32_to_le_bytes, u32_from-u32_to,
}
use sonotxt_rust.Wire.{Message, no_message, encode, decode}

-- The prefix of a body that fits a u32.
abbrev pub header : Bytes → Bytes
header body = u32_to_le_bytes (length body % 2 ^ 32)

module _ (body rest : Bytes) (fits : length body < 2 ^ 32) where
  pub header-length : u32_from_le_bytes (header body ++ rest) 0 ≡ length body
  header-length = u32_from-u32_to (length body % 2 ^ 32) rest (omega arith) ∙ omega arith

  body-slice : slice ((header body ++ body) ++ rest) 4 (4 + length body) ≡ body
  unfolding u32_to_le_bytes
  body-slice =
      let e : 4 + length body - 4 ≡ length body = omega arith in rw e (take-append body rest)

module _ (from_slice : Bytes → Option Message) (bytes : Bytes) (len : ℕ)
    (prefix : u32_from_le_bytes bytes 0 ≡ len) where
  decode-frame :
      (m : Message)
      → 4 + len ≤ length bytes
      → from_slice (slice bytes 4 (4 + len)) ≡ some m
      → decode from_slice bytes ≡ ok (m, 4 + len)
  unfolding decode
  decode-frame m enough parsed = ground arith

  -- A buffer that ends before the length it announces is refused, and none of it is parsed.
  pub decode_short :
      4 ≤ length bytes → length bytes < 4 + len → decode from_slice bytes ≡ err no_message
  unfolding decode
  decode_short header_there short = ground arith

-- A decoded message never claims more bytes than there are, and is what serde_json makes of
-- exactly the bytes that the prefix announces.
pub decode_consumed :
    (from_slice : Bytes → Option Message) (bytes : Bytes) (m : Message) (n : ℕ)
    → decode from_slice bytes ≡ ok (m, n)
    → (4 ≤ n)
      × (n ≤ length bytes)
      × (n ≡ 4 + u32_from_le_bytes bytes 0)
      × (from_slice (slice bytes 4 n) ≡ some m)
unfolding decode
decode_consumed from_slice bytes m n e = ground arith

pub length-encode :
    (to_vec : Message → Bytes) (m : Message) → length (encode to_vec m) ≡ 4 + length (to_vec m)
unfolding encode
length-encode to_vec m = omega (
  arith,
  length-append (header (to_vec m)) (to_vec m),
  length-u32_to_le_bytes (length (to_vec m) % 2 ^ 32),
)

module _ (to_vec : Message → Bytes) (from_slice : Bytes → Option Message) (m : Message)
    (rest : Bytes) (back : from_slice (to_vec m) ≡ some m) (fits : length (to_vec m) < 2 ^ 32) where
  length-frame :
      length ((header (to_vec m) ++ to_vec m) ++ rest) ≡ 4 + length (to_vec m) + length rest
  length-frame = omega (
    arith,
    length-append (header (to_vec m) ++ to_vec m) rest,
    length-append (header (to_vec m)) (to_vec m),
    length-u32_to_le_bytes (length (to_vec m) % 2 ^ 32),
  )

  frame_prefix : u32_from_le_bytes ((header (to_vec m) ++ to_vec m) ++ rest) 0 ≡ length (to_vec m)
  frame_prefix =
      rw (append_assoc (header (to_vec m)) (to_vec m) rest)
        (header-length (to_vec m) (to_vec m ++ rest) fits)

  -- A message that serde_json gives back and whose JSON fits a u32 is decoded from its encoding,
  -- whatever follows, and exactly the bytes of the encoding are consumed.
  pub decode-encode : decode from_slice (encode to_vec m ++ rest) ≡ ok (m, length (encode to_vec m))
  unfolding encode
  decode-encode = rw (length-encode to_vec m) (
      decode-frame from_slice _ _ frame_prefix m (omega (arith, length-frame))
        (ap from_slice (body-slice (to_vec m) rest fits) ∙ back))
