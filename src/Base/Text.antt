-- ===== src/Base/Text.antt =====
-- Texts as the lists of their code points, for code that looks at the characters of a `str`.
use Prim.Native.Nat.{ℕ, ◌+◌, ◌/◌, ◌%◌}
use Prim.Native.Char.{code}
use Prim.Native.String.{String}
use mathlib.Core.Path.{◌≡◌, refl}
use mathlib.Core.Bool.{Bool, true, false, ◌&&◌}
use mathlib.Core.Option.{Option, none, some}
use mathlib.Core.List.{List, [], ◌∷◌, ◌++◌, reverse}
use native.Mathlib.Omega.{arith}
use sonotxt_rust.Base.Tests.{◌==◌, ltb, if◌then◌else◌}
use sonotxt_rust.Base.Bytes.{Bytes}

abbrev pub Text : Type 0
Text = List ℕ

-- The code points of a literal.
abbrev pub codes : String → Text
codes String.[] = []
codes (String.◌∷◌ c s) = code c ∷ codes s

-- `c.encode_utf8()`
unfoldable pub utf8_char : ℕ → Bytes
utf8_char c =
    if ltb c 128
    then c ∷ []
    else if ltb c 2048
    then (192 + c / 64) ∷ (128 + c % 64) ∷ []
    else if ltb c 65536
    then (224 + c / 4096) ∷ (128 + c / 64 % 64) ∷ (128 + c % 64) ∷ []
    else (240 + c / 262144) ∷ (128 + c / 4096 % 64) ∷ (128 + c / 64 % 64) ∷ (128 + c % 64) ∷ []

-- `text.as_bytes()`
unfoldable pub as_bytes : Text → Bytes
unfolding utf8_char
as_bytes [] = []
as_bytes (c ∷ text) = utf8_char c ++ as_bytes text

unfoldable pub eq_text : Text → Text → Bool
eq_text [] [] = true
eq_text [] (d ∷ t) = false
eq_text (c ∷ s) [] = false
eq_text (c ∷ s) (d ∷ t) = (c == d) && eq_text s t

pub eq_text_refl : (s : Text) → eq_text s s ≡ true
unfolding eq_text
eq_text_refl [] = refl
eq_text_refl (c ∷ s) = ground (arith, eq_text_refl s)

pub eq_of_eq_text : (s t : Text) → eq_text s t ≡ true → s ≡ t
unfolding eq_text
eq_of_eq_text [] [] h = refl
eq_of_eq_text [] (d ∷ t) h = cc
eq_of_eq_text (c ∷ s) [] h = cc
eq_of_eq_text (c ∷ s) (d ∷ t) h = ground (arith, eq_of_eq_text s t)

-- `column = $1`, false at NULL
abbrev pub is_text : Text → Option Text → Bool
is_text s none = false
is_text s (some t) = eq_text t s

-- Two values of a UNIQUE column that exclude each other: NULL excludes none.
abbrev pub same_text : Option Text → Option Text → Bool
same_text none t = false
same_text (some s) t = is_text s t

unfoldable pub trim_start : (ℕ → Bool) → Text → Text
trim_start is_whitespace [] = []
trim_start is_whitespace (c ∷ s) =
    let rest = trim_start is_whitespace s in if is_whitespace c then rest else c ∷ s

-- `text.trim()`
unfoldable pub trim : (ℕ → Bool) → Text → Text
unfolding trim_start
trim is_whitespace s = reverse (trim_start is_whitespace (reverse (trim_start is_whitespace s)))
