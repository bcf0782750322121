-- ===== src/Wire/Streams.antt =====
-- quic.rs: one message written to a stream is the message read from it; a stream that is cut off
-- gives none.
use sonotxt_rust.Base.{
  ℕ, ◌+◌, ◌^◌, ◌≤◌, ◌<◌, min, suc, ◌≡◌, refl, ap, ◌∙◌, sym, Option, some, [], ◌++◌, append_assoc,
  append-nil, arith, length, length-append, take, drop, take-append, drop-append, length-take,
  length-drop,
}
use sonotxt_rust.Base.Errors.{ok, err}
use sonotxt_rust.Base.Bytes.{Bytes, u32_to_le_bytes, u32_from_le_bytes}
use sonotxt_rust.Wire.{
  Message, finished_early, encode, decode, read_message, write_message, read_exact,
}
use sonotxt_rust.Wire.Codec.{header, header-length, decode-encode, length-encode}

read_exact_enough :
    (n : ℕ) (recv : Bytes) → n ≤ length recv → read_exact n recv ≡ ok (take n recv, drop n recv)
unfolding read_exact
read_exact_enough n recv h = ground arith

read_exact_short : (n : ℕ) (recv : Bytes) → length recv < n → read_exact n recv ≡ err finished_early
unfolding read_exact
read_exact_short n recv h = ground arith

read_exact-append : (body rest : Bytes) → read_exact (length body) (body ++ rest) ≡ ok (body, rest)
read_exact-append body rest = rw (
  read_exact_enough (length body) (body ++ rest) (omega (arith, length-append body rest)),
  take-append,
  drop-append,
)

module _ (body rest : Bytes) where
  read_header : read_exact 4 (header body ++ rest) ≡ ok (header body, rest)
  unfolding u32_to_le_bytes
  read_header = read_exact-append (header body) rest

header_alone :
    (body : Bytes) → length body < 2 ^ 32 → u32_from_le_bytes (header body) 0 ≡ length body
header_alone body fits =
    ap (λ b. u32_from_le_bytes b 0) (sym (append-nil (header body))) ∙ header-length body [] fits

module _ (from_slice : Bytes → Option Message) (recv : Bytes) where
  read_message_steps :
      (prefix recv' body rest : Bytes) (m : Message) (n : ℕ)
      → read_exact 4 recv ≡ ok (prefix, recv')
      → read_exact (u32_from_le_bytes prefix 0) recv' ≡ ok (body, rest)
      → decode from_slice (prefix ++ body) ≡ ok (m, n)
      → read_message from_slice recv ≡ ok (m, rest)
  unfolding read_message
  read_message_steps prefix recv' body rest m n first second decoded = ground arith

  read_message_no_header : length recv < 4 → read_message from_slice recv ≡ err finished_early
  unfolding read_message read_exact
  read_message_no_header short = ground arith

  read_message_no_body :
      4 ≤ length recv
      → length recv < 4 + u32_from_le_bytes (take 4 recv) 0
      → read_message from_slice recv ≡ err finished_early
  unfolding read_message
  read_message_no_body enough short = ground (
    arith,
    read_exact_enough 4 recv enough,
    read_exact_short (u32_from_le_bytes (take 4 recv) 0) (drop 4 recv)
        (omega (arith, length-drop 4 recv)),
  )

module _ (to_vec : Message → Bytes) (from_slice : Bytes → Option Message) (m : Message)
    (fits : length (to_vec m) < 2 ^ 32) where
  -- A message that serde_json gives back and whose JSON fits a u32, written to a stream, is the
  -- message read from it, and the rest of the stream is left.
  pub read_message-write_message :
      (rest : Bytes)
      → from_slice (to_vec m) ≡ some m
      → read_message from_slice (write_message to_vec [] m ++ rest) ≡ ok (m, rest)
  unfolding write_message encode
  read_message-write_message rest back =
      let body = to_vec m in
      rw (append_assoc (header body) body rest) (
        read_message_steps from_slice _ (header body) (body ++ rest) body rest m _
          (read_header body (body ++ rest))
          (rw (header_alone body fits) (read_exact-append body rest))
          (rw (append-nil (header body ++ body)) at
            (decode-encode to_vec from_slice m [] back fits)))

  cut_at : ℕ → Bytes
  cut_at k = take k (encode to_vec m)

  length-cut_at : (k : ℕ) → length (cut_at k) ≡ min k (4 + length (to_vec m))
  unfolding cut_at
  length-cut_at k = rw (← length-encode to_vec m) (length-take k (encode to_vec m))

  header-cut_at : (j : ℕ) → take 4 (cut_at (suc (suc (suc (suc j))))) ≡ header (to_vec m)
  unfolding cut_at encode u32_to_le_bytes
  header-cut_at j = refl

  read_message-cut_at :
      (k : ℕ) → k < 4 + length (to_vec m) → read_message from_slice (cut_at k) ≡ err finished_early
  read_message-cut_at (suc (suc (suc (suc j)))) cut =
      read_message_no_body from_slice _ (omega (arith, length-cut_at (suc (suc (suc (suc j)))))) (
        omega (
          arith,
          length-cut_at (suc (suc (suc (suc j)))),
          header_alone (to_vec m) fits,
          ap (λ b. u32_from_le_bytes b 0) (header-cut_at j),
        ))
  read_message-cut_at k cut = read_message_no_header from_slice _ (omega (arith, length-cut_at k))

  -- A stream that ends before a message whose JSON fits a u32 does gives an error, wherever it is
  -- cut.
  pub read_message-take :
      (k : ℕ)
      → k < length (encode to_vec m)
      → read_message from_slice (take k (write_message to_vec [] m)) ≡ err finished_early
  unfolding write_message cut_at
  read_message-take k cut = read_message-cut_at k (omega (arith, length-encode to_vec m))
