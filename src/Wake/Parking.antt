-- ===== src/Wake/Parking.antt =====
-- Producers and the owner interleaved, one atomic step at a time: `ring` is the publication of
-- work, the exchange of the flag and the write; `clear` is the reads, the store of the flag and the
-- check of the work that must follow it; then the owner parks. Producers are alike, so they are
-- counted by where they stand.
use tdlua.Prelude.{ℕ, suc, ◌<◌, ◌≡◌, refl, ◌⊎◌, inl, inr, Bool, true, false, arith}

pub data Owner : Type 0 where
  running draining drained cleared parked : Owner

pub record System : Type 0 where
  pub work : Bool
  pub asserted : Bool
  pub reliable : Bool
  pub readable : ℕ
  pub posted : ℕ
  pub writing : ℕ
  pub owner : Owner

unfoldable pub start : System
start = record {
  work = false;
  asserted = false;
  reliable = true;
  readable = 0;
  posted = 0;
  writing = 0;
  owner = running;
}

-- A producer publishes, exchanges the flag (and returns if it was set), writes, finds that the write
-- would block, or fails to write. A write that would block leaves the flag set and writes nothing;
-- the assumption on the system is that a write blocks only while the object is full, and that a
-- full object is readable.
-- The owner takes the work, clears in steps, checks and parks, wakes, or fails in a read.
pub data Step (s : System) : System → Type 0 where
  publish : Step s (record s { work = true; posted = suc s.posted })
  exchange :
      (n : ℕ)
      → s.posted ≡ suc n
      → s.asserted ≡ false
      → Step s (record s { asserted = true; posted = n; writing = suc s.writing })
  coalesce : (n : ℕ) → s.posted ≡ suc n → s.asserted ≡ true → Step s (record s { posted = n })
  write : (n : ℕ) → s.writing ≡ suc n → Step s (record s { writing = n; readable = suc s.readable })
  would_block : (n : ℕ) → s.writing ≡ suc n → 0 < s.readable → Step s (record s { writing = n })
  break_write :
      (n : ℕ)
      → s.writing ≡ suc n
      → Step s (record s { writing = n; reliable = false; asserted = false })
  take : s.owner ≡ running → Step s (record s { work = false })
  begin : s.owner ≡ running → Step s (record s { owner = draining })
  read : (n : ℕ) → s.owner ≡ draining → n < s.readable → Step s (record s { readable = n })
  exhaust : s.owner ≡ draining → s.readable ≡ 0 → Step s (record s { owner = drained })
  break_read :
      s.owner ≡ draining → Step s (record s { owner = running; reliable = false; asserted = false })
  store : s.owner ≡ drained → Step s (record s { asserted = false; owner = cleared })
  notice : s.owner ≡ cleared → s.work ≡ true → Step s (record s { owner = running })
  park : s.owner ≡ cleared → s.work ≡ false → Step s (record s { owner = parked })
  wake : s.owner ≡ parked → 0 < s.readable → Step s (record s { owner = running })
  expire : s.owner ≡ parked → Step s (record s { owner = running })

pub data Reach : System → Type 0 where
  here : Reach start
  next : {s t : System} → Reach s → Step s t → Reach t

abbrev IsClearing : Owner → Type 0
IsClearing o = (o ≡ draining) ⊎ (o ≡ drained)

-- A set flag has a byte behind it, in the object, on its way, or taken by a clear that is not over;
-- and while the owner is parked, work has a flag or a producer that has yet to set it.
record Inv (s : System) : Type 0 where
  backed :
      s.reliable ≡ true
      → s.asserted ≡ true
      → (0 < s.readable) ⊎ ((0 < s.writing) ⊎ IsClearing s.owner)
  covered :
      s.reliable ≡ true → s.owner ≡ parked → s.work ≡ true → (0 < s.posted) ⊎ (s.asserted ≡ true)

start-Inv : Inv start
unfolding start
start-Inv = record { backed = λ r a. cc; covered = λ r o w. cc }

Step-Inv : {s t : System} → Step s t → Inv s → Inv t
Step-Inv publish v = record { backed = v.backed; covered = λ r o w. inl (omega arith) }
Step-Inv (exchange n p a) v = record {
  backed = λ r a'. inr (inl (omega arith));
  covered = λ r o w. inr refl;
}
Step-Inv (coalesce n p a) v = record { backed = v.backed; covered = λ r o w. inr a }
Step-Inv (write n p) v = record { backed = λ r a. inl (omega arith); covered = v.covered }
Step-Inv (would_block n p full) v = record { backed = λ r a. inl full; covered = v.covered }
Step-Inv (break_write n p) v = record { backed = λ r a. cc; covered = λ r o w. cc }
Step-Inv (take o) v = record { backed = v.backed; covered = λ r o' w. cc }
Step-Inv (begin o) v = record { backed = λ r a. inr (inr (inl refl)); covered = λ r o' w. cc }
Step-Inv (read n o lt) v = record { backed = λ r a. inr (inr (inl o)); covered = v.covered }
Step-Inv (exhaust o z) v = record { backed = λ r a. inr (inr (inr refl)); covered = λ r o' w. cc }
Step-Inv (break_read o) v = record { backed = λ r a. cc; covered = λ r o' w. cc }
Step-Inv (store o) v = record { backed = λ r a. cc; covered = λ r o' w. cc }
Step-Inv (notice o w) v = record {
  backed = λ r a. grind (arith, v.backed);
  covered = λ r o' w'. cc;
}
Step-Inv (park o w) v = record { backed = λ r a. grind (arith, v.backed); covered = λ r o' w'. cc }
Step-Inv (wake o lt) v = record { backed = λ r a. grind (arith, v.backed); covered = λ r o' w. cc }
Step-Inv (expire o) v = record { backed = λ r a. grind (arith, v.backed); covered = λ r o' w. cc }

Reach-Inv : {s : System} → Reach s → Inv s
Reach-Inv here = start-Inv
Reach-Inv (next r st) = Step-Inv st (Reach-Inv r)

-- No wakeup is lost: in every reachable state of a reliable doorbell, if the owner is parked while
-- work is there, then the object is readable, or a producer is still on its way through `ring` and
-- has not yet written or passed the flag. The reachable states include those after a write that
-- would block, under the assumption on the system that the object is readable whenever a write to
-- it would block.
pub no_lost_wakeup :
    {s : System}
    → Reach s
    → s.reliable ≡ true
    → s.owner ≡ parked
    → s.work ≡ true
    → (0 < s.readable) ⊎ ((0 < s.writing) ⊎ (0 < s.posted))
no_lost_wakeup {s} r rel o w = parked_work (covered rel o w)
  where
    open (Reach-Inv r) use {backed, covered}

    woken :
        (0 < s.readable) ⊎ ((0 < s.writing) ⊎ IsClearing s.owner)
        → (0 < s.readable) ⊎ ((0 < s.writing) ⊎ (0 < s.posted))
    woken (inl b) = inl b
    woken (inr (inl b)) = inr (inl b)
    woken (inr (inr (inl b))) = cc
    woken (inr (inr (inr b))) = cc

    parked_work :
        (0 < s.posted) ⊎ (s.asserted ≡ true) → (0 < s.readable) ⊎ ((0 < s.writing) ⊎ (0 < s.posted))
    parked_work (inl p) = inr (inr p)
    parked_work (inr a) = woken (backed rel a)
