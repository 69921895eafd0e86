-- ===== src/Receiver/Generic/Capacity.antt =====
-- The bounded buffer of a client holds at most `generic_capacity` pending tickets.
use tdlua.Prelude.{
  ℕ, suc, ◌≤◌, ◌≡◌, true, List, [], ◌∷◌, arith, Bool-cases, inl, inr, leb, if_split,
}
use tdlua.Ticket.{Buffers, overflow, Channel, retire, pending_of}
use tdlua.Ticket.Cover.{Covers, Keeps, retire-Keeps}
use tdlua.Ticket.Upkeep.{retire-inactive, acquire-Covers}
use tdlua.Mailbox.{Mailbox}
use tdlua.Receiver.Generic.{
  Pruned, ask, is_pending, erase_envelope, prune, evict_from, make_room, add_generic,
}
use tdlua.Receiver.Generic.Pruning.{
  Covers-drop, ask-Keeps, pending_active, retire-pending, erase_envelope-Keeps, skip-Keeps,
  prune-Keeps,
}

-- After an eviction a client that had tickets has one less at least.
record Evicts (c : ℕ) (fifo : List ℕ) (b b' : Buffers) : Type 0 where
  covers : Covers c fifo b'
  room : (n : ℕ) → pending_of b c ≤ suc n → pending_of b' c ≤ n

module _ {A : Type 0} where
  evict_from-Evicts :
      (c now : ℕ) (fifo : List ℕ) (s : Buffers × Mailbox A)
      → Covers c fifo s.0
      → Evicts c (evict_from now fifo s).fifo s.0 (evict_from now fifo s).store.0
  unfolding evict_from
  evict_from-Evicts c now [] s v = record { covers = v; room = λ n le. omega (arith, v.cover) }
  evict_from-Evicts c now (i ∷ rest) (b, m) v =
      let k = ask-Keeps c (i ∷ rest) i now b v in
      elim (Bool-cases (is_pending i (ask i now b))) [
        | inl e ↦ rw (e, evict_from) (evicted k e)
        | inr e ↦
            rw (e, evict_from)
              (let l = skip-Keeps c i [] rest (ask i now b) m e k.covers in
                let x = evict_from-Evicts c now rest _ l.covers in
                record {
                  covers = x.covers;
                  room = λ n le. x.room n (omega (arith, k.fewer, l.fewer));
                })
      ]
    where
      evicted :
          Keeps c (i ∷ rest) b (ask i now b)
          → is_pending i (ask i now b) ≡ true
          → Evicts c rest b (erase_envelope i (retire i overflow (ask i now b), m)).0
      evicted k e =
          let b' = retire i overflow (ask i now b) in
          let gone =
            Covers-drop c i [] rest b' (retire-inactive i overflow (ask i now b))
              (Keeps.covers (retire-Keeps c (i ∷ rest) i overflow (ask i now b) k.covers)) in
          let l = erase_envelope-Keeps c rest i (b', m) gone in
          record {
            covers = l.covers;
            room = λ n le. omega (
              arith,
              l.fewer,
              k.fewer,
              retire-pending c i rest overflow (ask i now b) (pending_active i (ask i now b) e)
                  k.covers,
            );
          }

  -- A new generic ticket keeps the client within the capacity: with the fifo before the call naming
  -- every active ticket of the client and at most `suc n` of them pending, there are at most `suc
  -- n` afterwards, the new one among them, and the fifo names them all.
  pub add_generic-Covers :
      (n ttl now acquired_at : ℕ) (k : Channel) (c : ℕ) (fifo : List ℕ) (s : Buffers × Mailbox A)
      → Covers c fifo s.0
      → pending_of s.0 c ≤ suc n
      → let p = (add_generic (suc n) ttl now acquired_at k c fifo s).0 in
        Covers c p.fifo p.store.0 × (pending_of p.store.0 c ≤ suc n)
  unfolding add_generic
  add_generic-Covers n ttl now acquired_at k c fifo s v le =
      let a = acquire-Covers c acquired_at ttl k q.fifo q.store.0 roomy.0 in
      (a.0, omega (arith, a.1, roomy.1))
    where
      p : Pruned A
      p = prune (suc n) now fifo s

      pruned : Keeps c p.fifo s.0 p.store.0
      pruned = prune-Keeps c (suc n) now fifo s v

      q : Pruned A
      q = make_room (suc n) now c p

      roomy : Covers c q.fifo q.store.0 × (pending_of q.store.0 c ≤ n)
      roomy =
          if_split (λ (x : Pruned A). Covers c x.fifo x.store.0 × (pending_of x.store.0 c ≤ n))
            (leb (suc n) (pending_of p.store.0 c))
            (λ full.
              let e = evict_from-Evicts c now p.fifo p.store pruned.covers in
              (e.covers, e.room n (omega (arith, pruned.fewer))))
            (λ free. (pruned.covers, ground (arith, free)))
