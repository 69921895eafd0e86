-- ===== src/Receiver/Generic/Pruning.antt =====
-- Pruning and compaction of the fifo of a client lose no active ticket.
use tdlua.Prelude.{
  ℕ, suc, ◌≤◌, ◌≡◌, refl, ap, sym, Bool, true, false, Option, none, some, List, [], ◌∷◌, ◌++◌,
  arith, if◌then◌else◌, get_elem?, length, sum_by, Bool-cases, inl, inr, leb, if_both, subst,
}
use tdlua.Ticket.{
  Buffers, Ticket, DropReason, active_at, retire, retire_found, retire_active, is_alive, is_active,
  pending_of,
}
use tdlua.Ticket.Accounting.{IsExact, retire-IsExact}
use tdlua.Ticket.Cover.{
  client_at, Rising, AllOf, live, Covers, Keeps, unchanged, retire_active-pending,
}
use tdlua.Ticket.Upkeep.{refresh-Keeps, destroy-Keeps}
use tdlua.Mailbox.{Mailbox, erase_generic}
use tdlua.Receiver.Generic.{
  Pruned, ask, is_pending, erase_envelope, drop_erased, prune_from, compact_from, threshold, prune,
}

Rising-widen : (lo lo' hi : ℕ) (fifo : List ℕ) → lo' ≤ lo → Rising lo hi fifo → Rising lo' hi fifo
Rising-widen lo lo' hi [] le r = omega arith
Rising-widen lo lo' hi (i ∷ rest) le r = (omega arith, r.1)

-- An address is left out.
Rising-drop :
    (lo hi i : ℕ) (done rest : List ℕ)
    → Rising lo hi (done ++ i ∷ rest)
    → Rising lo hi (done ++ rest)
Rising-drop lo hi i [] rest r = Rising-widen (suc i) lo hi rest (omega arith) r.1
Rising-drop lo hi i (j ∷ done) rest r = (r.0, Rising-drop (suc j) hi i done rest r.1)

AllOf-drop :
    (c : ℕ) (ts : List Ticket) (i : ℕ) (done rest : List ℕ)
    → AllOf c ts (done ++ i ∷ rest)
    → AllOf c ts (done ++ rest)
AllOf-drop c ts i [] rest o = o.1
AllOf-drop c ts i (j ∷ done) rest o = (o.0, AllOf-drop c ts i done rest o.1)

live-drop :
    (ts : List Ticket) (i : ℕ) (done rest : List ℕ)
    → active_at (get_elem? ts i) ≡ false
    → sum_by (live ts) (done ++ i ∷ rest) ≡ sum_by (live ts) (done ++ rest)
live-drop ts i [] rest off = ground arith
live-drop ts i (j ∷ done) rest off = omega (arith, live-drop ts i done rest off)

-- A ticket that is not active can leave the fifo.
pub Covers-drop :
    (c i : ℕ) (done rest : List ℕ) (b : Buffers)
    → active_at (get_elem? b.tickets i) ≡ false
    → Covers c (done ++ i ∷ rest) b
    → Covers c (done ++ rest) b
Covers-drop c i done rest b off v = record {
  exact = v.exact;
  rising = Rising-drop 0 (length b.tickets) i done rest v.rising;
  owned = AllOf-drop c b.tickets i done rest v.owned;
  cover = omega (arith, v.cover, live-drop b.tickets i done rest off);
  alive = v.alive;
}

pub ask-Keeps :
    (c : ℕ) (fifo : List ℕ) (i now : ℕ) (b : Buffers)
    → Covers c fifo b
    → Keeps c fifo b (ask i now b)
ask-Keeps c fifo i now b v =
    if_both (Keeps c fifo b) (is_alive i b) (refresh-Keeps c fifo i now b v) (unchanged c fifo b v)

-- What is not pending is not active.
not_pending :
    (c : ℕ) (fifo : List ℕ) (i : ℕ) (b : Buffers)
    → Covers c fifo b
    → is_pending i b ≡ false
    → active_at (get_elem? b.tickets i) ≡ false
unfolding is_alive is_active
not_pending c fifo i b v e = ground (arith, v.alive i)

pub pending_active :
    (i : ℕ) (b : Buffers) → is_pending i b ≡ true → active_at (get_elem? b.tickets i) ≡ true
unfolding is_alive is_active
pending_active i b e = ground arith

-- The retirement of a pending ticket makes room.
pub retire-pending :
    (c i : ℕ) (rest : List ℕ) (r : DropReason) (b : Buffers)
    → active_at (get_elem? b.tickets i) ≡ true
    → Covers c (i ∷ rest) b
    → suc (pending_of (retire i r b) c) ≡ pending_of b c
unfolding retire retire_active
retire-pending c i rest r b on v = known (get_elem? b.tickets i) refl (retire-IsExact i r b v.exact)
  where
    active_now :
        (t : Ticket)
        → get_elem? b.tickets i ≡ some t
        → t.active ≡ true
        → IsExact (if t.active then retire_active i t r b else b)
        → suc (pending_of (if t.active then retire_active i t r b else b) c) ≡ pending_of b c
    active_now t e a = rw a (λ y.
        ground (arith, retire_active-pending i t r b e c v.exact y a, v.owned.0, ap client_at e))

    known :
        (o : Option Ticket)
        → get_elem? b.tickets i ≡ o
        → IsExact (retire_found i o r b)
        → suc (pending_of (retire_found i o r b) c) ≡ pending_of b c
    known none e x = absurd (ground (arith, on, ap active_at e))
    known (some t) e x = active_now t e (ground (arith, on, ap active_at e)) x

pub Keeps-after :
    (c : ℕ) (fifo : List ℕ) (a b d f : Buffers)
    → pending_of b c ≤ pending_of a c
    → pending_of d c ≤ pending_of b c
    → Keeps c fifo d f
    → Keeps c fifo a f
Keeps-after c fifo a b d f p q k = record { covers = k.covers; fewer = omega (arith, k.fewer) }

append_one : (done rest : List ℕ) (i : ℕ) → done ++ i ∷ rest ≡ (done ++ i ∷ []) ++ rest
append_one [] rest i = refl
append_one (j ∷ done) rest i = ap (λ js. j ∷ js) (append_one done rest i)

module _ {A : Type 0} where
  pub erase_envelope-Keeps :
      (c : ℕ) (fifo : List ℕ) (i : ℕ) (s : Buffers × Mailbox A)
      → Covers c fifo s.0
      → Keeps c fifo s.0 (erase_envelope i s).0
  unfolding erase_envelope
  erase_envelope-Keeps c fifo i (b, m) v = dropped (erase_generic i m)
    where
      dropped : (p : Mailbox A × Bool) → Keeps c fifo b (drop_erased i b p).0
      dropped (m', true) = destroy-Keeps c fifo i b v
      dropped (m', false) = unchanged c fifo b v

  -- One step of a loop that drops the ticket `i` of the store `b`.
  pub skip-Keeps :
      (c i : ℕ) (done rest : List ℕ) (b : Buffers) (m : Mailbox A)
      → is_pending i b ≡ false
      → Covers c (done ++ i ∷ rest) b
      → Keeps c (done ++ rest) b (if is_alive i b then erase_envelope i (b, m) else (b, m)).0
  skip-Keeps c i done rest b m e v =
      let w = Covers-drop c i done rest b (not_pending c (done ++ i ∷ rest) i b v e) v in
      if_both (λ (s : Buffers × Mailbox A). Keeps c (done ++ rest) b s.0) (is_alive i b)
        (erase_envelope-Keeps c (done ++ rest) i (b, m) w) (unchanged c (done ++ rest) b w)

  pub prune_from-Keeps :
      (c now : ℕ) (fifo : List ℕ) (s : Buffers × Mailbox A)
      → Covers c fifo s.0
      → Keeps c (prune_from now fifo s).fifo s.0 (prune_from now fifo s).store.0
  unfolding prune_from
  prune_from-Keeps c now [] s v = unchanged c [] s.0 v
  prune_from-Keeps c now (i ∷ rest) (b, m) v =
      let k = ask-Keeps c (i ∷ rest) i now b v in
      elim (Bool-cases (is_pending i (ask i now b))) [
        | inl e ↦ rw (e, prune_from) k
        | inr e ↦
            rw (e, prune_from)
              (let l = skip-Keeps c i [] rest (ask i now b) m e k.covers in
                Keeps-after c _ b (ask i now b) _ _ k.fewer l.fewer
                  (prune_from-Keeps c now rest _ l.covers))
      ]

  -- `done` is what the loop has kept so far.
  compact_from-Keeps :
      (c now : ℕ) (done fifo : List ℕ) (s : Buffers × Mailbox A)
      → Covers c (done ++ fifo) s.0
      → Keeps c (done ++ (compact_from now fifo s).fifo) s.0 (compact_from now fifo s).store.0
  unfolding compact_from
  compact_from-Keeps c now done [] s v = unchanged c (done ++ []) s.0 v
  compact_from-Keeps c now done (i ∷ rest) (b, m) v =
      let k = ask-Keeps c (done ++ i ∷ rest) i now b v in
      elim (Bool-cases (is_pending i (ask i now b))) [
        | inl e ↦
            rw (e, compact_from)
              (let l =
                  compact_from-Keeps c now (done ++ i ∷ []) rest (ask i now b, m)
                    (subst (λ fs. Covers c fs (ask i now b)) (append_one done rest i) k.covers) in
                Keeps-after c _ b (ask i now b) (ask i now b) _ k.fewer (omega arith) (
                  subst
                    (λ fs.
                      Keeps c fs (ask i now b) (compact_from now rest (ask i now b, m)).store.0)
                    (sym (append_one done (compact_from now rest (ask i now b, m)).fifo i)) l))
        | inr e ↦
            rw (e, compact_from)
              (let l = skip-Keeps c i done rest (ask i now b) m e k.covers in
                Keeps-after c _ b (ask i now b) _ _ k.fewer l.fewer
                  (compact_from-Keeps c now done rest _ l.covers))
      ]

  pub prune-Keeps :
      (c capacity now : ℕ) (fifo : List ℕ) (s : Buffers × Mailbox A)
      → Covers c fifo s.0
      → Keeps c (prune capacity now fifo s).fifo s.0 (prune capacity now fifo s).store.0
  unfolding prune
  prune-Keeps c capacity now fifo s v =
      let p = prune_from now fifo s in
      let k = prune_from-Keeps c now fifo s v in
      let l = compact_from-Keeps c now [] p.fifo p.store k.covers in
      if_both (λ (q : Pruned A). Keeps c q.fifo s.0 q.store.0)
        (leb (length p.fifo) (threshold capacity)) k
        (Keeps-after c _ s.0 p.store.0 p.store.0 _ k.fewer (omega arith) l)
