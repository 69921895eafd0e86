-- ===== src/Receiver/Generic/Bound.antt =====
-- The bound on pending tickets over whole histories of one client's buffer.
use tdlua.Prelude.{ℕ, suc, ◌≤◌, List, [], ◌∷◌, ◌==◌, if◌then◌else◌, if_split, arith, lookup}
use tdlua.Ticket.{Buffers, Channel, no_buffers, acquire, refresh, destroy, pending_of}
use tdlua.Ticket.Cover.{Covers, Keeps}
use tdlua.Ticket.Upkeep.{refresh-Keeps, destroy-Keeps, acquire_other-Keeps, no_buffers-Covers}
use tdlua.Mailbox.{Mailbox}
use tdlua.Mailbox
use tdlua.Receiver.Generic.{Pruned, add_generic}
use tdlua.Receiver.Generic.Capacity.{add_generic-Covers}

-- The receiver adds an envelope's ticket; any ticket is asked for, or ends, in a mailbox or with
-- its consumer; another client takes a ticket; and the mailbox is used by others.
pub data Event (A : Type 0) : Type 0 where
  admits : ℕ → ℕ → Channel → Event A
  asks : ℕ → ℕ → Event A
  releases : ℕ → Event A
  others_acquire : ℕ → ℕ → Channel → Event A
  uses : Mailbox A → Event A

module _ {A : Type 0} where
  -- One step of client `c`.
  unfoldable pub happen : ℕ → ℕ → ℕ → Pruned A → Event A → Pruned A
  happen capacity ttl c p (admits now acquired k) =
      (add_generic capacity ttl now acquired k c p.fifo p.store).0
  happen capacity ttl c p (asks i now) = record p { store = (refresh i now p.store.0, p.store.1) }
  happen capacity ttl c p (releases i) = record p { store = (destroy i p.store.0, p.store.1) }
  happen capacity ttl c p (others_acquire other acquired k) =
      if other == c
      then p
      else record p { store = (acquire acquired ttl k other p.store.0, p.store.1) }
  happen capacity ttl c p (uses m) = record p { store = (p.store.0, m) }

  unfoldable pub happen_all : ℕ → ℕ → ℕ → Pruned A → List (Event A) → Pruned A
  unfolding happen
  happen_all capacity ttl c p [] = p
  happen_all capacity ttl c p (e ∷ es) = happen_all capacity ttl c (happen capacity ttl c p e) es

  -- A new client, with no ticket.
  abbrev pub unused : Pruned A
  unused = record { store = (no_buffers, Mailbox.empty); fifo = [] }

  pub record IsBounded (n c : ℕ) (p : Pruned A) : Type 0 where
    pub covers : Covers c p.fifo p.store.0
    pub pending : pending_of p.store.0 c ≤ suc n

  keep :
      (n c : ℕ) (p : Pruned A) (b : Buffers) (m : Mailbox A)
      → IsBounded n c p
      → Keeps c p.fifo p.store.0 b
      → IsBounded n c (record p { store = (b, m) })
  keep n c p b m v k = record { covers = k.covers; pending = omega (arith, k.fewer, v.pending) }

  happen-IsBounded :
      (n ttl c : ℕ) (p : Pruned A) (e : Event A)
      → IsBounded n c p
      → IsBounded n c (happen (suc n) ttl c p e)
  unfolding happen
  happen-IsBounded n ttl c p (admits now acquired k) v =
      let a = add_generic-Covers n ttl now acquired k c p.fifo p.store v.covers v.pending in
      record { covers = a.0; pending = a.1 }
  happen-IsBounded n ttl c p (asks i now) v =
      keep n c p _ p.store.1 v (refresh-Keeps c p.fifo i now p.store.0 v.covers)
  happen-IsBounded n ttl c p (releases i) v =
      keep n c p _ p.store.1 v (destroy-Keeps c p.fifo i p.store.0 v.covers)
  happen-IsBounded n ttl c p (others_acquire other acquired k) v =
      if_split (IsBounded n c) (other == c) (λ own. v)
        (λ ne.
          keep n c p _ p.store.1 v
            (acquire_other-Keeps c other acquired ttl k p.fifo p.store.0 ne v.covers))
  happen-IsBounded n ttl c p (uses m) v = record { covers = v.covers; pending = v.pending }

  run-IsBounded :
      (n ttl c : ℕ) (p : Pruned A) (es : List (Event A))
      → IsBounded n c p
      → IsBounded n c (happen_all (suc n) ttl c p es)
  unfolding happen_all
  run-IsBounded n ttl c p [] v = v
  run-IsBounded n ttl c p (e ∷ es) v =
      run-IsBounded n ttl c (happen (suc n) ttl c p e) es (happen-IsBounded n ttl c p e v)

  unused-IsBounded : (n c : ℕ) → IsBounded n c unused
  unfolding no_buffers pending_of lookup
  unused-IsBounded n c = record { covers = no_buffers-Covers c; pending = omega arith }

  -- From a new client on, whatever tickets are added, asked for, expire, are consumed, or are taken
  -- by other clients, and however its mailbox is used, a client never has more pending tickets than
  -- the capacity, which is positive; and the fifo of the client names all the active ones, so that
  -- the next eviction finds them.
  pub happen_all-IsBounded :
      (n ttl c : ℕ) (es : List (Event A)) → IsBounded n c (happen_all (suc n) ttl c unused es)
  happen_all-IsBounded n ttl c es = run-IsBounded n ttl c unused es (unused-IsBounded n c)
