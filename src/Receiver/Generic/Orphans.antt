-- ===== src/Receiver/Generic/Orphans.antt =====
-- The bounded buffer closes no mailbox and opens none.
use tdlua.Prelude.{
  ℕ, ◌≡◌, refl, ◌∙◌, Bool, true, false, Option, none, some, List, [], ◌∷◌, Bool-cases, inl, inr,
  if_both, leb, length, if◌then◌else◌,
}
use tdlua.Ticket.{Buffers, Channel, retire, DropReason, is_alive, pending_of}
use tdlua.Mailbox.{Mailbox, Envelope, erase_generic, shrink_to, without_ticket}
use tdlua.Receiver.Generic.{
  Pruned, ask, is_pending, erase_envelope, drop_erased, prune_from, compact_from, threshold, prune,
  evict_from, add_generic,
}

module _ {A : Type 0} where
  -- The mailbox of a store is closed as that of another one.
  abbrev SameOrphan : Buffers × Mailbox A → Buffers × Mailbox A → Type 0
  SameOrphan s s' = s'.1.orphan ≡ s.1.orphan

  shrink-orphan :
      (m : Mailbox A) (o : Option (List (Envelope A))) → (shrink_to o m).0.orphan ≡ m.orphan
  shrink-orphan m none = refl
  shrink-orphan m (some q) = refl

  drop_erased-orphan :
      (i : ℕ) (b : Buffers) (p : Mailbox A × Bool) → (drop_erased i b p).1.orphan ≡ p.0.orphan
  drop_erased-orphan i b (m, true) = refl
  drop_erased-orphan i b (m, false) = refl

  erase_envelope-orphan : (i : ℕ) (s : Buffers × Mailbox A) → SameOrphan s (erase_envelope i s)
  unfolding erase_envelope erase_generic
  erase_envelope-orphan i (b, m) =
      drop_erased-orphan i b (erase_generic i m) ∙ shrink-orphan m (without_ticket i m.queue)

  dropped-orphan :
      (i : ℕ) (b : Buffers) (m : Mailbox A) (alive : Bool)
      → (if alive then erase_envelope i (b, m) else (b, m)).1.orphan ≡ m.orphan
  dropped-orphan i b m alive =
      if_both (λ (s : Buffers × Mailbox A). s.1.orphan ≡ m.orphan) alive
        (erase_envelope-orphan i (b, m)) refl

  prune_from-orphan :
      (now : ℕ) (fifo : List ℕ) (s : Buffers × Mailbox A)
      → SameOrphan s (prune_from now fifo s).store
  unfolding prune_from
  prune_from-orphan now [] s = refl
  prune_from-orphan now (i ∷ rest) (b, m) = elim (Bool-cases (is_pending i (ask i now b))) [
    | inl e ↦ rw (e, prune_from) refl
    | inr e ↦
        rw (e, prune_from)
          (prune_from-orphan now rest _
            ∙ dropped-orphan i (ask i now b) m (is_alive i (ask i now b)))
  ]

  compact_from-orphan :
      (now : ℕ) (fifo : List ℕ) (s : Buffers × Mailbox A)
      → SameOrphan s (compact_from now fifo s).store
  unfolding compact_from
  compact_from-orphan now [] s = refl
  compact_from-orphan now (i ∷ rest) (b, m) = elim (Bool-cases (is_pending i (ask i now b))) [
    | inl e ↦ rw (e, compact_from) (compact_from-orphan now rest (ask i now b, m))
    | inr e ↦
        rw (e, compact_from)
          (compact_from-orphan now rest _
            ∙ dropped-orphan i (ask i now b) m (is_alive i (ask i now b)))
  ]

  evict_from-orphan :
      (now : ℕ) (fifo : List ℕ) (s : Buffers × Mailbox A)
      → SameOrphan s (evict_from now fifo s).store
  unfolding evict_from
  evict_from-orphan now [] s = refl
  evict_from-orphan now (i ∷ rest) (b, m) = elim (Bool-cases (is_pending i (ask i now b))) [
    | inl e ↦
        rw (e, evict_from) (erase_envelope-orphan i (retire i DropReason.overflow (ask i now b), m))
    | inr e ↦
        rw (e, evict_from)
          (evict_from-orphan now rest _
            ∙ dropped-orphan i (ask i now b) m (is_alive i (ask i now b)))
  ]

  prune-orphan :
      (capacity now : ℕ) (fifo : List ℕ) (s : Buffers × Mailbox A)
      → SameOrphan s (prune capacity now fifo s).store
  unfolding prune
  prune-orphan capacity now fifo s =
      let p = prune_from now fifo s in
      if_both (λ (q : Pruned A). SameOrphan s q.store) (leb (length p.fifo) (threshold capacity))
        (prune_from-orphan now fifo s)
        (compact_from-orphan now p.fifo p.store ∙ prune_from-orphan now fifo s)

  pub add_generic-orphan :
      (capacity ttl now acquired_at : ℕ) (c : Channel) (client : ℕ) (fifo : List ℕ)
      (s : Buffers × Mailbox A)
      → SameOrphan s (add_generic capacity ttl now acquired_at c client fifo s).0.store
  unfolding add_generic
  add_generic-orphan capacity ttl now acquired_at c client fifo s =
      let p = prune capacity now fifo s in
      if_both (λ (q : Pruned A). SameOrphan s q.store) (leb capacity (pending_of p.store.0 client))
        (evict_from-orphan now p.fifo p.store ∙ prune-orphan capacity now fifo s)
        (prune-orphan capacity now fifo s)
