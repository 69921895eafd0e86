-- ===== src/Prelude/Keys.antt =====
-- Maps whose keys ascend within bounds: such a map has one entry for each key, so that sums over
-- its entries follow insertion and removal.
use tdlua.Prelude.Maps.{Map, lookup, insert, erase}
use tdlua.Prelude.Lists.{sum_by}
use Prim.Native.Nat.{ℕ, suc, ◌+◌, ◌≤◌, ◌<◌}
use mathlib.Core.Path.{◌≡◌, refl}
use mathlib.Core.List.{[], ◌∷◌}
use mathlib.Core.Option.{none, some}
use native.Mathlib.Omega.{arith}

-- Every key is at least `lo` and less than `hi`, and the keys ascend.
abbrev pub Ascending {ℓ} : {V : Type ℓ} → ℕ → ℕ → Map V → Type 0
Ascending lo hi [] = Unit {0}
Ascending lo hi ((k, v) ∷ m) = (lo ≤ k) × (k < hi) × Ascending (suc k) hi m

module _ {ℓ} {V : Type ℓ} where
  pub lookup_below : (k lo hi : ℕ) (m : Map V) → Ascending lo hi m → k < lo → lookup k m ≡ none
  unfolding lookup
  lookup_below k lo hi [] a h = refl
  lookup_below k lo hi ((j, v) ∷ m) a h = ground (arith, lookup_below k (suc j) hi m a.2)

  pub lookup_above : (k lo hi : ℕ) (m : Map V) → Ascending lo hi m → hi ≤ k → lookup k m ≡ none
  unfolding lookup
  lookup_above k lo hi [] a h = refl
  lookup_above k lo hi ((j, v) ∷ m) a h = ground (arith, lookup_above k (suc j) hi m a.2)

  pub Ascending-widen :
      (lo hi lo' hi' : ℕ) (m : Map V)
      → Ascending lo hi m
      → lo' ≤ lo
      → hi ≤ hi'
      → Ascending lo' hi' m
  Ascending-widen lo hi lo' hi' [] a p q = tt
  Ascending-widen lo hi lo' hi' ((k, v) ∷ m) a p q =
      (omega arith, omega arith, Ascending-widen (suc k) hi (suc k) hi' m a.2 (omega arith) q)

  pub insert-Ascending :
      (k : ℕ) (v : V) (lo hi : ℕ) (m : Map V)
      → Ascending lo hi m
      → lo ≤ k
      → k < hi
      → Ascending lo hi (insert k v m)
  unfolding insert
  insert-Ascending k v lo hi [] a p q = (p, q, tt)
  insert-Ascending k v lo hi ((j, w) ∷ m) a p q =
      ground (arith, insert-Ascending k v (suc j) hi m a.2)

  pub erase-Ascending : (k lo hi : ℕ) (m : Map V) → Ascending lo hi m → Ascending lo hi (erase k m)
  unfolding erase
  erase-Ascending k lo hi [] a = tt
  erase-Ascending k lo hi ((j, w) ∷ m) a =
      ground
        (arith, erase-Ascending k (suc j) hi m a.2, Ascending-widen (suc j) hi lo hi (erase k m))

  pub sum_by-insert :
      (f : ℕ × V → ℕ) (k : ℕ) (v : V) (m : Map V)
      → lookup k m ≡ none
      → sum_by f (insert k v m) ≡ sum_by f m + f (k, v)
  unfolding lookup insert
  sum_by-insert f k v [] h = omega arith
  sum_by-insert f k v ((j, w) ∷ m) h = ground (arith, sum_by-insert f k v m)

  pub erase-absent : (k : ℕ) (m : Map V) → lookup k m ≡ none → erase k m ≡ m
  unfolding lookup erase
  erase-absent k [] h = refl
  erase-absent k ((j, w) ∷ m) h = ground (arith, erase-absent k m)

  pub sum_by-erase :
      (f : ℕ × V → ℕ) (k : ℕ) (v : V) (lo hi : ℕ) (m : Map V)
      → Ascending lo hi m
      → lookup k m ≡ some v
      → sum_by f (erase k m) + f (k, v) ≡ sum_by f m
  unfolding lookup erase
  sum_by-erase f k v lo hi [] a h = cc
  sum_by-erase f k v lo hi ((j, w) ∷ m) a h = ground (
    arith,
    sum_by-erase f k v (suc j) hi m a.2,
    erase-absent k m,
    lookup_below j (suc j) hi m a.2,
  )

  -- A write to a key that is there moves the sum by the difference of the two weights.
  pub sum_by-update :
      (f : ℕ × V → ℕ) (k : ℕ) (u v : V) (lo hi : ℕ) (m : Map V)
      → Ascending lo hi m
      → lookup k m ≡ some u
      → sum_by f (insert k v m) + f (k, u) ≡ sum_by f m + f (k, v)
  unfolding lookup insert
  sum_by-update f k u v lo hi [] a h = cc
  sum_by-update f k u v lo hi ((j, w) ∷ m) a h =
      ground (arith, sum_by-update f k u v (suc j) hi m a.2, lookup_below k (suc j) hi m a.2)

  pub sum_by-lookup_le :
      (f : ℕ × V → ℕ) (k : ℕ) (u : V) (m : Map V) → lookup k m ≡ some u → f (k, u) ≤ sum_by f m
  unfolding lookup
  sum_by-lookup_le f k u [] h = cc
  sum_by-lookup_le f k u ((j, w) ∷ m) h = ground (arith, sum_by-lookup_le f k u m)

-- The keys ascend, whatever the largest one is.
abbrev pub Sorted {ℓ} : {V : Type ℓ} → Map V → Type 0
Sorted m = (hi : ℕ) × Ascending 0 hi m

module _ {ℓ} {V : Type ℓ} where
  pub insert-Sorted : (k : ℕ) (v : V) (m : Map V) → Sorted m → Sorted (insert k v m)
  insert-Sorted k v m (hi, a) = (
    suc (hi + k),
    insert-Ascending k v 0 (suc (hi + k)) m
        (Ascending-widen 0 hi 0 (suc (hi + k)) m a (omega arith) (omega arith)) (omega arith)
        (omega arith),
  )

  pub erase-Sorted : (k : ℕ) (m : Map V) → Sorted m → Sorted (erase k m)
  erase-Sorted k m (hi, a) = (hi, erase-Ascending k 0 hi m a)
