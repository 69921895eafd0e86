-- ===== src/Cleanup/Queues/Unlink.antt =====
-- Leaving a chain: the neighbours of the id that leaves become neighbours.
use tdlua.Prelude.{
  ℕ, ◌≡◌, true, false, Option, some, List, [], ◌∷◌, arith, ◌==◌, is_some, if◌then◌else◌,
}
use tdlua.Cleanup.Queues.Chain.{
  mem, Distinct, first, last_or, next_in, previous_from, previous_in, without, points, next-mem,
  previous_from-mem,
}

next_after :
    (i j y : ℕ) (xs : List ℕ)
    → Distinct (y ∷ xs)
    → mem i xs ≡ true
    → (i == j) ≡ false
    → next_in (y ∷ without i xs) j
      ≡ (if points (previous_from (some y) xs i) j then next_in xs i else next_in (y ∷ xs) j)
next_after i j y [] d m n = cc
next_after i j y (x ∷ xs) d m n =
    ground (arith, next_after i j x xs d.1, previous_from-mem (some x) i j xs)

pub next-without :
    (i j : ℕ) (xs : List ℕ)
    → Distinct xs
    → mem i xs ≡ true
    → (i == j) ≡ false
    → next_in (without i xs) j
      ≡ (if points (previous_in xs i) j then next_in xs i else next_in xs j)
next-without i j [] d m n = cc
next-without i j (x ∷ xs) d m n = ground (arith, next_after i j x xs d)

pub first-without :
    (i : ℕ) (xs : List ℕ)
    → mem i xs ≡ true
    → first (without i xs) ≡ (if is_some (previous_in xs i) then first xs else next_in xs i)
first-without i [] m = cc
first-without i (x ∷ xs) m = ground (arith, previous_some x i xs)
  where
    previous_some :
        (x i : ℕ) (xs : List ℕ) → mem i xs ≡ true → is_some (previous_from (some x) xs i) ≡ true
    previous_some x i [] m = cc
    previous_some x i (y ∷ ys) m = ground (arith, previous_some y i ys)

pub previous-without :
    (p : Option ℕ) (i j : ℕ) (xs : List ℕ)
    → Distinct xs
    → mem i xs ≡ true
    → (i == j) ≡ false
    → previous_from p (without i xs) j
      ≡ (if points (next_in xs i) j then previous_from p xs i else previous_from p xs j)
previous-without p i j [] d m n = cc
previous-without p i j (x ∷ []) d m n = ground arith
previous-without p i j (x ∷ y ∷ xs) d m n =
    ground (arith, previous-without (some x) i j (y ∷ xs) d.1, next-mem i j (y ∷ xs))

pub last-without :
    (p : Option ℕ) (i : ℕ) (xs : List ℕ)
    → mem i xs ≡ true
    → last_or p (without i xs)
      ≡ (if is_some (next_in xs i) then last_or p xs else previous_from p xs i)
last-without p i [] m = cc
last-without p i (x ∷ []) m = ground arith
last-without p i (x ∷ y ∷ xs) m = ground (arith, last-without (some x) i (y ∷ xs))
