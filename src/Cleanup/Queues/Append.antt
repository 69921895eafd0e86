-- ===== src/Cleanup/Queues/Append.antt =====
-- Joining a chain at its end.
use tdlua.Prelude.{
  ℕ, ◌≡◌, refl, true, false, ◌||◌, Option, none, some, List, [], ◌∷◌, ◌++◌, arith, ◌==◌, ==_refl,
  is_some, if◌then◌else◌,
}
use tdlua.Cleanup.Queues.Chain.{mem, Distinct, first, last_or, last, next_in, previous_from, points}

pub mem-snoc : (i j : ℕ) (xs : List ℕ) → mem j (xs ++ i ∷ []) ≡ (mem j xs || i == j)
mem-snoc i j [] = ground arith
mem-snoc i j (x ∷ xs) = ground (arith, mem-snoc i j xs)

pub snoc-Distinct : (i : ℕ) (xs : List ℕ) → Distinct xs → mem i xs ≡ false → Distinct (xs ++ i ∷ [])
snoc-Distinct i [] d m = (refl, tt)
snoc-Distinct i (x ∷ xs) d m =
    (ground (arith, mem-snoc i x xs), snoc-Distinct i xs d.1 (ground arith))

last_or-some : (x : ℕ) (xs : List ℕ) → is_some (last_or (some x) xs) ≡ true
last_or-some x [] = refl
last_or-some x (y ∷ ys) = last_or-some y ys

pub first-snoc :
    (i : ℕ) (xs : List ℕ) → first (xs ++ i ∷ []) ≡ (if is_some (last xs) then first xs else some i)
first-snoc i [] = refl
first-snoc i (x ∷ xs) = rw (last_or-some x xs) refl

pub last-snoc : (p : Option ℕ) (i : ℕ) (xs : List ℕ) → last_or p (xs ++ i ∷ []) ≡ some i
last-snoc p i [] = refl
last-snoc p i (x ∷ xs) = last-snoc (some x) i xs

last_or-mem :
    (x j : ℕ) (xs : List ℕ) → points (last_or (some x) xs) j ≡ true → (x == j || mem j xs) ≡ true
last_or-mem x j [] h = ground arith
last_or-mem x j (y ∷ ys) h = ground (arith, last_or-mem y j ys)

pub last-mem : (j : ℕ) (xs : List ℕ) → points (last xs) j ≡ true → mem j xs ≡ true
last-mem j [] h = cc
last-mem j (x ∷ xs) h = last_or-mem x j xs h

pub next-snoc :
    (i j : ℕ) (xs : List ℕ)
    → Distinct xs
    → (i == j) ≡ false
    → next_in (xs ++ i ∷ []) j ≡ (if points (last xs) j then some i else next_in xs j)
next-snoc i j [] d n = ground arith
next-snoc i j (x ∷ []) d n = ground arith
next-snoc i j (x ∷ y ∷ xs) d n = ground (arith, next-snoc i j (y ∷ xs) d.1, last_or-mem y j xs)

pub next-snoc_self : (i : ℕ) (xs : List ℕ) → mem i xs ≡ false → next_in (xs ++ i ∷ []) i ≡ none
next-snoc_self i [] m = ground (arith, ==_refl i)
next-snoc_self i (x ∷ xs) m = ground (arith, next-snoc_self i xs)

pub previous-snoc :
    (p : Option ℕ) (i j : ℕ) (xs : List ℕ)
    → mem j xs ≡ true
    → previous_from p (xs ++ i ∷ []) j ≡ previous_from p xs j
previous-snoc p i j [] m = cc
previous-snoc p i j (x ∷ xs) m = ground (arith, previous-snoc (some x) i j xs)

pub previous-snoc_self :
    (p : Option ℕ) (i : ℕ) (xs : List ℕ)
    → mem i xs ≡ false
    → previous_from p (xs ++ i ∷ []) i ≡ last_or p xs
previous-snoc_self p i [] m = ground (arith, ==_refl i)
previous-snoc_self p i (x ∷ xs) m = ground (arith, previous-snoc_self (some x) i xs)
