-- ===== src/Base/Bytes.antt =====
-- Bytes and the four-byte little-endian lengths of the wire formats.
use Prim.Native.Nat.{ℕ, zero, suc, ◌+◌, ◌*◌, ◌/◌, ◌%◌, ◌^◌, ◌<◌}
use mathlib.Core.Path.{◌≡◌, refl, ap}
use mathlib.Core.List.{List, [], ◌∷◌, ◌++◌}
use native.Mathlib.Omega.{arith}
use sonotxt_rust.Base.Lists.{get_or, get_or-append, length}

abbrev pub Bytes : Type 0
Bytes = List ℕ

-- `(n as u32).to_le_bytes()`
unfoldable pub u32_to_le_bytes : ℕ → Bytes
u32_to_le_bytes n = (n % 256) ∷ (n / 256 % 256) ∷ (n / 65536 % 256) ∷ (n / 16777216 % 256) ∷ []

-- `u32::from_le_bytes([b[i], b[i + 1], b[i + 2], b[i + 3]])`, within bounds
unfoldable pub u32_from_le_bytes : Bytes → ℕ → ℕ
u32_from_le_bytes b i =
    get_or b i 0
    + 256 * get_or b (i + 1) 0
    + 65536 * get_or b (i + 2) 0
    + 16777216 * get_or b (i + 3) 0

pub length-u32_to_le_bytes : (n : ℕ) → length (u32_to_le_bytes n) ≡ 4
unfolding u32_to_le_bytes
length-u32_to_le_bytes n = refl

-- A length below 2^32 comes back from its four bytes, wherever they start.
pub u32_from-u32_to :
    (n : ℕ) (rest : Bytes) → n < 2 ^ 32 → u32_from_le_bytes (u32_to_le_bytes n ++ rest) 0 ≡ n
unfolding u32_to_le_bytes u32_from_le_bytes
u32_from-u32_to n rest h = omega arith

-- Reading at an offset is reading what stands there.
pub u32_from_le_bytes-append :
    (before b : Bytes) → u32_from_le_bytes (before ++ b) (length before) ≡ u32_from_le_bytes b 0
unfolding u32_from_le_bytes
u32_from_le_bytes-append before b =
    let at : (i : ℕ) → get_or (before ++ b) (length before + i) 0 ≡ get_or b i 0 =
      λ i. get_or-append before b i 0 in
    omega (arith, at 0, at 1, at 2, at 3, start)
  where
    start : get_or (before ++ b) (length before) 0 ≡ get_or (before ++ b) (length before + 0) 0
    start = ap (λ k. get_or (before ++ b) k 0) (omega arith)

-- A number in `k` little-endian bytes, and back: a `u128`, or 16 bytes that are an id.
unfoldable pub to_bytes : (k n : ℕ) → Bytes
to_bytes zero n = []
to_bytes (suc k) n = (n % 256) ∷ to_bytes k (n / 256)

unfoldable pub of_bytes : Bytes → ℕ
of_bytes [] = 0
of_bytes (b ∷ bs) = b + 256 * of_bytes bs

pub of_bytes-to_bytes : (k n : ℕ) → n < 256 ^ k → of_bytes (to_bytes k n) ≡ n
unfolding to_bytes of_bytes
of_bytes-to_bytes zero n h = omega arith
of_bytes-to_bytes (suc k) n h =
    let rest : of_bytes (to_bytes k (n / 256)) ≡ n / 256 =
      of_bytes-to_bytes k (n / 256) (omega arith) in
    omega (arith, rest)

pub length-to_bytes : (k n : ℕ) → length (to_bytes k n) ≡ k
unfolding to_bytes
length-to_bytes zero n = refl
length-to_bytes (suc k) n = ap suc (length-to_bytes k (n / 256))
