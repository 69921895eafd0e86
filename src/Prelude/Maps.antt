-- ===== src/Prelude/Maps.antt =====
-- `std::map` with an integer key: an association list in the order of its keys, which is the order
-- of iteration. The laws hold of any list; `erase` clears every entry of the key.
use Prim.Native.Nat.{ℕ}
use mathlib.Core.Path.{◌≡◌, refl}
use mathlib.Core.List.{List, [], ◌∷◌}
use mathlib.Core.Option.{Option, none, some}
use native.Mathlib.Omega.{arith}
use tdlua.Prelude.Tests.{ltb, ◌==◌, if◌then◌else◌}

abbrev pub Map {ℓ} : Type ℓ → Type ℓ
Map V = List (ℕ × V)

module _ {ℓ} {V : Type ℓ} where
  unfoldable pub lookup : ℕ → Map V → Option V
  lookup key [] = none
  lookup key ((at, value) ∷ rest) = if at == key then some value else lookup key rest

  -- `m[key] = value`, in its place in the order.
  unfoldable pub insert : ℕ → V → Map V → Map V
  insert key value [] = (key, value) ∷ []
  insert key value ((at, old) ∷ rest) =
      if at == key
      then (key, value) ∷ rest
      else if ltb key at
      then (key, value) ∷ (at, old) ∷ rest
      else (at, old) ∷ insert key value rest

  unfoldable pub erase : ℕ → Map V → Map V
  erase key [] = []
  erase key ((at, value) ∷ more) =
      let rest = erase key more in if at == key then rest else (at, value) ∷ rest

  pub lookup-insert :
      (new key : ℕ) (value : V) (entries : Map V)
      → lookup key (insert new value entries)
        ≡ (if new == key then some value else lookup key entries)
  unfolding lookup insert
  lookup-insert new key value [] = refl
  lookup-insert new key value ((at, old) ∷ rest) = ground (arith, lookup-insert new key value rest)

  pub lookup-erase :
      (gone key : ℕ) (entries : Map V)
      → lookup key (erase gone entries) ≡ (if gone == key then none else lookup key entries)
  unfolding lookup erase
  lookup-erase gone key [] = ground arith
  lookup-erase gone key ((at, value) ∷ rest) = ground (arith, lookup-erase gone key rest)

-- A change of every value in place, `for (auto &pair : m)`.
unfoldable pub map_values {ℓ κ} : {V : Type ℓ} {W : Type κ} → (V → W) → Map V → Map W
map_values f [] = []
map_values f ((k, v) ∷ m) = (k, f v) ∷ map_values f m
