-- ===== src/Receiver/Generic.antt =====
-- The bounded buffer of generic envelopes: a fifo of weak ticket pointers for each client, pruned
-- by age and by capacity. A ticket that has left the mailbox may live on with the consumer.
pub mod Orphans
pub mod Pruning
pub mod Capacity
pub mod Bound
use tdlua.Prelude.{
  ℕ, ◌-◌, ◌*◌, ◌/◌, ◌^◌, Bool, true, false, ◌&&◌, List, [], ◌∷◌, ◌++◌, leb, ltb, length,
  if◌then◌else◌,
}
use tdlua.Ticket.{
  Buffers, Channel, acquire, retire, refresh, destroy, is_active, is_alive, pending_of, DropReason,
}
use tdlua.Mailbox.{Mailbox, erase_generic}

-- A store, and the fifo that is left of an entry's.
pub record Pruned (A : Type 0) : Type 0 where
  pub store : Buffers × Mailbox A
  pub fifo : List ℕ

-- `ticket && ticket->active(current)`, after the ticket was asked.
abbrev pub is_pending : ℕ → Buffers → Bool
is_pending i b = is_alive i b && is_active i b

abbrev pub ask : ℕ → ℕ → Buffers → Buffers
ask i now b = if is_alive i b then refresh i now b else b

-- The compaction threshold: twice the capacity, or the largest size_t where that overflows.
unfoldable pub threshold : ℕ → ℕ
threshold capacity = if ltb ((2 ^ 64 - 1 - 1) / 2) capacity then 2 ^ 64 - 1 else capacity * 2

module _ {A : Type 0} where
  -- `eraseGeneric` on the mailbox, and the end of the caller's shared_ptr: if the envelope was
  -- there, that was the last one; otherwise a consumer holds the ticket.
  abbrev pub drop_erased : ℕ → Buffers → Mailbox A × Bool → Buffers × Mailbox A
  drop_erased i b (m, true) = (destroy i b, m)
  drop_erased i b (m, false) = (b, m)

  unfoldable pub erase_envelope : ℕ → Buffers × Mailbox A → Buffers × Mailbox A
  erase_envelope i (b, m) = drop_erased i b (erase_generic i m)

  -- The first loop of `pruneGenericLocked`: up to the first pending ticket.
  unfoldable pub prune_from : ℕ → List ℕ → Buffers × Mailbox A → Pruned A
  unfolding erase_envelope
  prune_from now [] s = record { store = s; fifo = [] }
  prune_from now (i ∷ rest) (b, m) =
      let b' = ask i now b in
      elim (is_pending i b') [
        | true ↦ record { store = (b', m); fifo = i ∷ rest }
        | false ↦ prune_from now rest (if is_alive i b' then erase_envelope i (b', m) else (b', m))
      ]

  -- The loop of `compactGenericLocked`: the pending tickets stay, in their order.
  unfoldable pub compact_from : ℕ → List ℕ → Buffers × Mailbox A → Pruned A
  unfolding erase_envelope
  compact_from now [] s = record { store = s; fifo = [] }
  compact_from now (i ∷ rest) (b, m) =
      let b' = ask i now b in
      elim (is_pending i b') [
        | true ↦ let p = compact_from now rest (b', m) in record p { fifo = i ∷ p.fifo }
        | false ↦
            compact_from now rest (if is_alive i b' then erase_envelope i (b', m) else (b', m))
      ]

  abbrev pub compact : ℕ → ℕ → Pruned A → Pruned A
  compact capacity now p =
      if leb (length p.fifo) (threshold capacity) then p else compact_from now p.fifo p.store

  unfoldable pub prune : ℕ → ℕ → List ℕ → Buffers × Mailbox A → Pruned A
  unfolding prune_from compact_from threshold
  prune capacity now fifo s = compact capacity now (prune_from now fifo s)

  -- The eviction loop of `addGenericLocked`: it ends with the first pending ticket, which
  -- overflows.
  unfoldable pub evict_from : ℕ → List ℕ → Buffers × Mailbox A → Pruned A
  unfolding erase_envelope
  evict_from now [] s = record { store = s; fifo = [] }
  evict_from now (i ∷ rest) (b, m) =
      let b' = ask i now b in
      elim (is_pending i b') [
        | true ↦ record {
          store = erase_envelope i (retire i DropReason.overflow b', m);
          fifo = rest;
        }
        | false ↦ evict_from now rest (if is_alive i b' then erase_envelope i (b', m) else (b', m))
      ]

  abbrev pub make_room : ℕ → ℕ → ℕ → Pruned A → Pruned A
  make_room capacity now client p =
      if leb capacity (pending_of p.store.0 client) then evict_from now p.fifo p.store else p

  -- The room for one more ticket, and the ticket itself: its address is the new end of the fifo.
  abbrev pub admit : ℕ → ℕ → Channel → ℕ → Pruned A → Pruned A × ℕ
  admit acquired_at ttl channel client p =
      let address = length p.store.0.tickets in
      (
        record {
          store = (acquire acquired_at ttl channel client p.store.0, p.store.1);
          fifo = p.fifo ++ address ∷ [];
        },
        address,
      )

  unfoldable pub add_generic :
      ℕ → ℕ → ℕ → ℕ → Channel → ℕ → List ℕ → Buffers × Mailbox A → Pruned A × ℕ
  unfolding prune evict_from
  add_generic capacity ttl now acquired_at channel client fifo s =
      admit acquired_at ttl channel client
        (make_room capacity now client (prune capacity now fifo s))
