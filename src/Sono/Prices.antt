-- ===== src/Sono/Prices.antt =====
-- The price of DOT that services/sono.rs reads from the pool's reserves, and when it is written to
-- the contract. What computes with the price, in floating point in the code, is left out.
use sonotxt_rust.Base.{
  ℕ, ◌+◌, ◌-◌, ◌/◌, Bool, not, ◌&&◌, [], ◌∷◌, ltb, ◌==◌, if◌then◌else◌, length, slice, slice-append,
  length-append, ◌++◌, ◌^◌, ◌<◌, ◌≡◌, refl, ap, ◌∙◌, arith,
}
use sonotxt_rust.Base.Bytes.{Bytes, to_bytes, of_bytes, of_bytes-to_bytes, length-to_bytes}

-- What the answer of the node is decoded to: the two reserves, no pool (so that CoinGecko is
-- asked), or an error.
pub data Reserves : Type 0 where
  reserves : (dot usdc : ℕ) → Reserves
  no_pool : Reserves
  too_short : Reserves
  zero_reserves : Reserves

unfoldable pub decode_reserves : Bytes → Reserves
decode_reserves [] = no_pool
decode_reserves (tag ∷ rest) =
    let dot = of_bytes (slice (tag ∷ rest) 1 17) in
    let usdc = of_bytes (slice (tag ∷ rest) 17 33) in
    if tag == 0
    then no_pool
    else if ltb (length (tag ∷ rest)) 33
    then too_short
    else if dot == 0
    then zero_reserves
    else reserves dot usdc

-- Whether `set_contract_dot_price` sends a transaction, by the price on the contract.
unfoldable pub is_worth_update : (current txt_per_dot : ℕ) → Bool
is_worth_update current txt_per_dot =
    let diff = if ltb current txt_per_dot then txt_per_dot - current else current - txt_per_dot in
    not (ltb 0 current && ltb diff (current / 100))

-- An answer that has both reserves, as two u128 behind the tag of `Some`, is decoded to them,
-- whatever follows, if there is any DOT.
pub decode_reserves-to_bytes :
    (dot usdc : ℕ) (rest : Bytes)
    → 0 < dot
    → dot < 256 ^ 16
    → usdc < 256 ^ 16
    → decode_reserves (1 ∷ (to_bytes 16 dot ++ (to_bytes 16 usdc ++ rest))) ≡ reserves dot usdc
unfolding decode_reserves
decode_reserves-to_bytes dot usdc rest some_dot dot_fits usdc_fits =
    let first : slice (1 ∷ (to_bytes 16 dot ++ (to_bytes 16 usdc ++ rest))) 1 17 ≡ to_bytes 16 dot =
      slice-append (1 ∷ []) (to_bytes 16 dot) (to_bytes 16 usdc ++ rest) 1 17 refl
        (omega (arith, length-to_bytes 16 dot)) in
    let second : slice (1 ∷ (to_bytes 16 dot ++ (to_bytes 16 usdc ++ rest))) 17 33
        ≡ to_bytes 16 usdc =
      slice-append (1 ∷ to_bytes 16 dot) (to_bytes 16 usdc) rest 17 33
        (omega (arith, length-to_bytes 16 dot))
        (omega (arith, length-to_bytes 16 dot, length-to_bytes 16 usdc)) in
    let long : length (to_bytes 16 dot ++ (to_bytes 16 usdc ++ rest)) ≡ 32 + length rest = omega (
      arith,
      length-append (to_bytes 16 dot) (to_bytes 16 usdc ++ rest),
      length-append (to_bytes 16 usdc) rest,
      length-to_bytes 16 dot,
      length-to_bytes 16 usdc,
    ) in
    ground (
      arith,
      long,
      ap of_bytes first ∙ of_bytes-to_bytes 16 dot dot_fits,
      ap of_bytes second ∙ of_bytes-to_bytes 16 usdc usdc_fits,
    )
