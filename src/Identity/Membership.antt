-- ===== src/Identity/Membership.antt =====
-- The bit blocks hold exactly the identities that were inserted.
use tdlua.Prelude.Int.{ℤ, pos, negsuc, nonpositive}
use tdlua.Prelude.{
  ℕ, zero, suc, ◌/◌, ◌%◌, ◌^◌, ◌≡◌, refl, inl, inr, Bool, false, ◌||◌, ◌&&◌, not, Option, none,
  some, List, [], ◌∷◌, arith, ◌==◌, if◌then◌else◌, lookup, lookup-insert, Bool-cases,
}
use tdlua.Identity.Bits.{nonzero-bit_or, zero-bit_and}
use tdlua.Identity.{History, empty, holds, contains, marked, register, insert_id}

-- `holds` of the block after the write, at any position of that block.
holds-marked :
    (o : Option ℕ) (v w : ℕ) → holds (some (marked o v)) w ≡ (v % 64 == w % 64 || holds o w)
holds-marked none v w =
    rw (nonzero-bit_or 0 (v % 64) (w % 64)) (rw (zero-bit_and (2 ^ (w % 64))) refl)
holds-marked (some x) v w = nonzero-bit_or x (v % 64) (w % 64)

holds-register :
    (h : History) (v w : ℕ)
    → holds (lookup (w / 64) (register h v).blocks) w
      ≡ (v == w || holds (lookup (w / 64) h.blocks) w)
unfolding register
holds-register h v w = elim (Bool-cases (v / 64 == w / 64)) [
  | inl same ↦
      let block : v / 64 ≡ w / 64 = ground arith in
      rw (lookup-insert (v / 64) (w / 64))
        (rw (same, block) (ground (arith, holds-marked (lookup (w / 64) h.blocks) v w)))
  | inr other ↦ rw (lookup-insert (v / 64) (w / 64)) (rw other (ground arith))
]

-- Equality of two C++ `int`s.
abbrev pub same_int : ℤ → ℤ → Bool
same_int (pos m) (pos n) = m == n
same_int (negsuc m) (negsuc n) = m == n
same_int (pos m) (negsuc n) = false
same_int (negsuc m) (pos n) = false

-- The identities as a list, newest first: what the history stands for.
abbrev pub member : ℤ → List ℤ → Bool
member w [] = false
member w (v ∷ vs) = same_int v w || member w vs

-- Insert one after the other; a refused one leaves the history as it was.
abbrev pub or_keep : History → Option History → History
or_keep h none = h
or_keep h (some h') = h'

unfoldable pub insert_all : List ℤ → History
insert_all [] = empty
insert_all (v ∷ vs) = or_keep (insert_all vs) (insert_id (insert_all vs) v)

-- The number of different positive identities in a list.
abbrev pub distinct : List ℤ → ℕ
distinct [] = 0
distinct (v ∷ vs) = if nonpositive v || member v vs then distinct vs else suc (distinct vs)

pub step_contains :
    (h : History) (v w : ℕ)
    → contains (or_keep h (insert_id h (pos v))) (pos (suc w))
      ≡ (v == suc w || contains h (pos (suc w)))
unfolding insert_id contains
step_contains h zero w = ground arith
step_contains h (suc v) w = ground (arith, holds-register h (suc v) (suc w))

-- The same for any two ints.
step_contains_int :
    (h : History) (v w : ℤ)
    → contains (or_keep h (insert_id h v)) w ≡ (not (nonpositive w) && same_int v w || contains h w)
unfolding insert_id contains
step_contains_int h v (pos zero) = refl
step_contains_int h v (negsuc w) = refl
step_contains_int h (pos v) (pos (suc w)) = step_contains h v w
step_contains_int h (negsuc v) (pos (suc w)) = refl

step_identities :
    (h : History) (v : ℤ)
    → (or_keep h (insert_id h v)).identities
      ≡ (if nonpositive v || contains h v then h.identities else suc h.identities)
unfolding insert_id register
step_identities h (pos zero) = ground arith
step_identities h (pos (suc v)) = ground arith
step_identities h (negsuc v) = ground arith

-- After any sequence of insertions of ints, negative, zero and repeated ones (which are refused)
-- included, the history contains an int exactly when it is positive and was in the sequence, and
-- its counter is the number of different positive ints of the sequence.
pub contains-insert_all :
    (vs : List ℤ)
    → ((w : ℤ) → contains (insert_all vs) w ≡ (not (nonpositive w) && member w vs))
      × ((insert_all vs).identities ≡ distinct vs)
unfolding insert_all empty
contains-insert_all [] = (none_held, refl)
  where
    none_held : (w : ℤ) → contains empty w ≡ (not (nonpositive w) && false)
    none_held (pos zero) = unfold contains in refl
    none_held (pos (suc w)) = unfold contains empty lookup in ground arith
    none_held (negsuc w) = unfold contains in refl
contains-insert_all (v ∷ vs) = (held (contains-insert_all vs).0, counted (contains-insert_all vs))
  where
    held :
        ((w : ℤ) → contains (insert_all vs) w ≡ (not (nonpositive w) && member w vs))
        → (w : ℤ)
        → contains (or_keep (insert_all vs) (insert_id (insert_all vs) v)) w
          ≡ (not (nonpositive w) && member w (v ∷ vs))
    held ih w = ground (arith, step_contains_int (insert_all vs) v w, ih w)

    counted :
        ((w : ℤ) → contains (insert_all vs) w ≡ (not (nonpositive w) && member w vs))
          × ((insert_all vs).identities ≡ distinct vs)
        → (or_keep (insert_all vs) (insert_id (insert_all vs) v)).identities ≡ distinct (v ∷ vs)
    counted ih = ground (arith, step_identities (insert_all vs) v, ih.0 v)
