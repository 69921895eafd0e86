-- ===== src/Identity.antt =====
-- include/tdlua/common/identity_history.h: the set of the client identities ever registered, as
-- bits in 64-bit blocks. A logic_error of `insert` is `none`, and then the history is unchanged.
mod Bits
pub mod Membership
use Prim.Native.Nat.{bit_and, bit_or}
use tdlua.Prelude.Int.{ℤ, nonpositive, magnitude}
use tdlua.Prelude.{
  ℕ, suc, ◌+◌, ◌/◌, ◌%◌, ◌^◌, Bool, true, false, ◌||◌, Option, none, some, [], Map, lookup, insert,
  length, nonzero, if◌then◌else◌,
}

pub record History : Type 0 where
  pub blocks : Map ℕ
  pub identities : ℕ

unfoldable pub empty : History
empty = record { blocks = []; identities = 0 }

-- `std::uint64_t(1) << (value % 64)`
abbrev pub mask : ℕ → ℕ
mask value = 2 ^ (value % 64)

-- `it != blocks_.end() && (it->second & mask)`
abbrev pub holds : Option ℕ → ℕ → Bool
holds none value = false
holds (some word) value = nonzero (bit_and word (mask value))

unfoldable pub contains : History → ℤ → Bool
contains h id =
    if nonpositive id then false else holds (lookup (magnitude id / 64) h.blocks) (magnitude id)

-- `blocks_[i] |= mask`, where a missing block is created as 0
abbrev pub marked : Option ℕ → ℕ → ℕ
marked none value = bit_or 0 (mask value)
marked (some word) value = bit_or word (mask value)

unfoldable pub register : History → ℕ → History
register h value = record {
  blocks = insert (value / 64) (marked (lookup (value / 64) h.blocks) value) h.blocks;
  identities = suc h.identities;
}

unfoldable pub insert_id : History → ℤ → Option History
unfolding register
insert_id h id = if nonpositive id || contains h id then none else some (register h (magnitude id))

unfoldable pub block_count : History → ℕ
block_count h = length h.blocks
