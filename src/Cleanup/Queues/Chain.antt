-- ===== src/Cleanup/Queues/Chain.antt =====
-- A queue as a list of different ids: neighbours, and what they become when an id leaves or comes.
use tdlua.Prelude.{
  ℕ, ◌≡◌, refl, Bool, true, false, ◌&&◌, ◌||◌, not, Option, none, some, List, [], ◌∷◌, arith, ◌==◌,
  if◌then◌else◌,
}

abbrev pub mem : ℕ → List ℕ → Bool
mem i [] = false
mem i (x ∷ xs) = x == i || mem i xs

abbrev pub Distinct : List ℕ → Type 0
Distinct [] = Unit {0}
Distinct (x ∷ xs) = (mem x xs ≡ false) × Distinct xs

abbrev pub first : List ℕ → Option ℕ
first [] = none
first (x ∷ xs) = some x

abbrev pub last_or : Option ℕ → List ℕ → Option ℕ
last_or p [] = p
last_or p (x ∷ xs) = last_or (some x) xs

abbrev pub last : List ℕ → Option ℕ
last xs = last_or none xs

abbrev pub next_in : List ℕ → ℕ → Option ℕ
next_in [] i = none
next_in (x ∷ xs) i = if x == i then first xs else next_in xs i

-- The neighbour before `i`, where `p` stands before the list.
abbrev pub previous_from : Option ℕ → List ℕ → ℕ → Option ℕ
previous_from p [] i = none
previous_from p (x ∷ xs) i = if x == i then p else previous_from (some x) xs i

abbrev pub previous_in : List ℕ → ℕ → Option ℕ
previous_in xs i = previous_from none xs i

abbrev pub without : ℕ → List ℕ → List ℕ
without i [] = []
without i (x ∷ xs) = if x == i then xs else x ∷ without i xs

abbrev pub points : Option ℕ → ℕ → Bool
points none j = false
points (some i) j = i == j

pub mem-without :
    (i j : ℕ) (xs : List ℕ) → Distinct xs → mem j (without i xs) ≡ (mem j xs && not (i == j))
mem-without i j [] d = refl
mem-without i j (x ∷ xs) d = ground (arith, mem-without i j xs d.1)

pub without-Distinct : (i : ℕ) (xs : List ℕ) → Distinct xs → Distinct (without i xs)
without-Distinct i [] d = tt
without-Distinct i (x ∷ xs) d = ground (arith, without-Distinct i xs d.1, mem-without i x xs d.1)

next_fresh : (j : ℕ) (xs : List ℕ) → mem j xs ≡ false → next_in xs j ≡ none
next_fresh j [] h = refl
next_fresh j (x ∷ xs) h = ground (arith, next_fresh j xs)

previous_fresh :
    (p : Option ℕ) (j : ℕ) (xs : List ℕ) → mem j xs ≡ false → previous_from p xs j ≡ none
previous_fresh p j [] h = refl
previous_fresh p j (x ∷ xs) h = ground (arith, previous_fresh (some x) j xs)

pub next-mem : (i j : ℕ) (xs : List ℕ) → points (next_in xs i) j ≡ true → mem j xs ≡ true
next-mem i j [] h = cc
next-mem i j (x ∷ []) h = ground arith
next-mem i j (x ∷ y ∷ xs) h = ground (arith, next-mem i j (y ∷ xs))

pub previous_from-mem :
    (p : Option ℕ) (i j : ℕ) (xs : List ℕ)
    → points (previous_from p xs i) j ≡ true
    → (points p j || mem j xs) ≡ true
previous_from-mem p i j [] h = cc
previous_from-mem p i j (x ∷ xs) h = ground (arith, previous_from-mem (some x) i j xs)

pub previous-mem : (i j : ℕ) (xs : List ℕ) → points (previous_in xs i) j ≡ true → mem j xs ≡ true
previous-mem i j xs h = ground (arith, previous_from-mem none i j xs)
