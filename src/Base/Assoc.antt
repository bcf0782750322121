-- ===== src/Base/Assoc.antt =====
-- Maps from numbers, as association lists: a `HashMap`, or a table by its key.
use Prim.Native.Nat.{ℕ}
use mathlib.Core.Path.{◌≡◌, refl}
use mathlib.Core.Logic.{◌≢◌}
use mathlib.Core.Option.{Option, none, some}
use mathlib.Core.List.{List, [], ◌∷◌}
use native.Mathlib.Omega.{arith}
use sonotxt_rust.Base.Tests.{◌==◌, if◌then◌else◌}

abbrev pub Assoc {ℓ} : Type ℓ → Type ℓ
Assoc V = List (ℕ × V)

module _ {ℓ} {V : Type ℓ} where
  unfoldable pub lookup : ℕ → Assoc V → Option V
  lookup key [] = none
  lookup key ((j, val) ∷ rest) = if j == key then some val else lookup key rest

  -- Writes the value of a key, new or old.
  unfoldable pub insert : ℕ → V → Assoc V → Assoc V
  insert key val [] = (key, val) ∷ []
  insert key val ((j, w) ∷ rest) =
      if j == key then (key, val) ∷ rest else (j, w) ∷ insert key val rest

  -- Removes every entry of a key.
  unfoldable pub erase : ℕ → Assoc V → Assoc V
  erase key [] = []
  erase key ((j, w) ∷ rest) = let rest = erase key rest in if j == key then rest else (j, w) ∷ rest

  pub lookup-insert :
      (key j : ℕ) (val : V) (rest : Assoc V)
      → lookup j (insert key val rest) ≡ (if key == j then some val else lookup j rest)
  unfolding lookup insert
  lookup-insert key j val [] = refl
  lookup-insert key j val ((i, w) ∷ rest) = ground (arith, lookup-insert key j val rest)

  pub lookup-erase :
      (key j : ℕ) (rest : Assoc V)
      → lookup j (erase key rest) ≡ (if key == j then none else lookup j rest)
  unfolding lookup erase
  lookup-erase key j [] = ground arith
  lookup-erase key j ((i, w) ∷ rest) = ground (arith, lookup-erase key j rest)

  pub lookup-insert_self :
      (key : ℕ) (val : V) (rest : Assoc V) → lookup key (insert key val rest) ≡ some val
  lookup-insert_self key val rest = ground (arith, lookup-insert key key val rest)

  pub lookup-insert_ne :
      (key j : ℕ) (val : V) (rest : Assoc V)
      → key ≢ j
      → lookup j (insert key val rest) ≡ lookup j rest
  lookup-insert_ne key j val rest ne = ground (arith, lookup-insert key j val rest)

pub ruleset map_laws = (lookup-insert, lookup-erase)
