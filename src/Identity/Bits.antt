-- ===== src/Identity/Bits.antt =====
-- Single bits of a word under `&` and `|`, by the digit recursion of the native operations.
use Prim.Native.Nat.{
  ℕ, zero, suc, ◌+◌, ◌*◌, ◌/◌, ◌%◌, ◌^◌, ◌≤◌, min, max, bit_and, bit_or, digits, bit_and-bitwise,
  bit_or-bitwise,
}
use native.Mathlib.Nat.{pow-suc}
use tdlua.Prelude.{◌≡◌, refl, ◌||◌, arith, ◌==◌, nonzero, if◌then◌else◌, inl, inr, Bool-cases}

-- The bit of `x` at a position, as 0 or 1.
digit : ℕ → ℕ → ℕ
digit x zero = x % 2
digit x (suc j) = digit (x / 2) j

digit-zero : (j : ℕ) → digit 0 j ≡ 0
unfolding digit
digit-zero zero = refl
digit-zero (suc j) = digit-zero j

digit-le_one : (x j : ℕ) → digit x j ≤ 1
unfolding digit
digit-le_one x zero = omega arith
digit-le_one x (suc j) = digit-le_one (x / 2) j

digit-pow : (k j : ℕ) → digit (2 ^ k) j ≡ (if k == j then 1 else 0)
unfolding digit
digit-pow zero zero = refl
digit-pow zero (suc j) = ground (arith, digit-zero j)
digit-pow (suc k) zero = ground (arith, pow-suc 2 k)
digit-pow (suc k) (suc j) =
    let half : 2 ^ suc k / 2 ≡ 2 ^ k = omega (arith, pow-suc 2 k) in
    rw half (ground (arith, digit-pow k j))

or_digits :
    (n a b j : ℕ) → a ≤ n → digit (digits (λ b. b) max n a b) j ≡ max (digit a j) (digit b j)
unfolding digit
or_digits zero zero b j h = omega (arith, digit-zero j)
or_digits zero (suc a) b j h = absurd (omega arith)
or_digits (suc n) zero b j h = omega (arith, digit-zero j)
or_digits (suc n) (suc a) b zero h = omega arith
or_digits (suc n) (suc a) b (suc j) h =
    let r = digits (λ b. b) max n (suc a / 2) (b / 2) in
    let half : (r * 2 + max (suc a % 2) (b % 2)) / 2 ≡ r = omega arith in
    rw half (or_digits n (suc a / 2) (b / 2) j (omega arith))

and_digits :
    (n a b j : ℕ) → a ≤ n → digit (digits (λ b. 0) min n a b) j ≡ min (digit a j) (digit b j)
unfolding digit
and_digits zero zero b j h = omega (arith, digit-zero j)
and_digits zero (suc a) b j h = absurd (omega arith)
and_digits (suc n) zero b j h = omega (arith, digit-zero j)
and_digits (suc n) (suc a) b zero h = omega arith
and_digits (suc n) (suc a) b (suc j) h =
    let r = digits (λ b. 0) min n (suc a / 2) (b / 2) in
    let half : (r * 2 + min (suc a % 2) (b % 2)) / 2 ≡ r = omega arith in
    rw half (and_digits n (suc a / 2) (b / 2) j (omega arith))

digit-bit_or : (a b j : ℕ) → digit (bit_or a b) j ≡ max (digit a j) (digit b j)
digit-bit_or a b j = rw bit_or-bitwise (or_digits a a b j (omega arith))

digit-bit_and : (a b j : ℕ) → digit (bit_and a b) j ≡ min (digit a j) (digit b j)
digit-bit_and a b j = rw bit_and-bitwise (and_digits a a b j (omega arith))

-- A number with no bit set is 0.
no_digits : (n x : ℕ) → x ≤ n → ((j : ℕ) → digit x j ≡ 0) → x ≡ 0
unfolding digit
no_digits zero x h all = omega arith
no_digits (suc n) zero h all = refl
no_digits (suc n) (suc x) h all =
    omega (arith, all 0, no_digits n (suc x / 2) (omega arith) (λ j. all (suc j)))

nonzero-bit_and : (w k : ℕ) → nonzero (bit_and w (2 ^ k)) ≡ (digit w k == 1)
nonzero-bit_and w k = elim (Bool-cases (digit w k == 1)) [
  | inl on ↦ ground (arith, digit-bit_and w (2 ^ k) k, digit-pow k k, digit-zero k)
  | inr off ↦
      let clear : bit_and w (2 ^ k) ≡ 0 =
        no_digits (bit_and w (2 ^ k)) (bit_and w (2 ^ k)) (omega arith)
          λ j. ground (arith, digit-bit_and w (2 ^ k) j, digit-pow k j, digit-le_one w j) in
      rw (clear, off)
]

-- After `word |= 1 << k` exactly bit k is set as well.
pub nonzero-bit_or :
    (w k j : ℕ)
    → nonzero (bit_and (bit_or w (2 ^ k)) (2 ^ j)) ≡ (k == j || nonzero (bit_and w (2 ^ j)))
nonzero-bit_or w k j =
    rw (nonzero-bit_and (bit_or w (2 ^ k)) j, nonzero-bit_and w j)
      (ground (arith, digit-bit_or w (2 ^ k) j, digit-pow k j, digit-le_one w j))

pub zero-bit_and : (b : ℕ) → bit_and 0 b ≡ 0
zero-bit_and b = bit_and-bitwise 0 b
