-- ===== src/Wake/Coalescing.antt =====
-- Rings between two drains of the kernel object, in any number, cost one write.
use tdlua.Prelude.{
  ℕ, zero, suc, ◌≡◌, refl, ◌⊎◌, inl, inr, true, false, ◌&&◌, not, List, [], ◌∷◌, arith,
  if◌then◌else◌, Bool-cases,
}
use tdlua.Wake.{
  WakeTarget, Written, wrote, write_interrupted, write_would_block, write_failed, fail, attempt,
  ring, valid, is_reliable, interrupted_code,
}

-- An attempt loop ends asserted with nothing else changed, or failed.
attempt-cases :
    (n : ℕ) (answers : ℕ → Written) (i : ℕ) (w : WakeTarget)
    → (attempt n answers i w ≡ w) ⊎ ((code : ℕ) × (attempt n answers i w ≡ fail code w))
unfolding attempt
attempt-cases zero answers i w = inr (interrupted_code, refl)
attempt-cases (suc n) answers i w = tried (answers i) (attempt-cases n answers (suc i) w)
  where
    tried :
        (a : Written)
        → (attempt n answers (suc i) w ≡ w)
          ⊎ ((code : ℕ) × (attempt n answers (suc i) w ≡ fail code w))
        → let r : WakeTarget = elim a [
          | wrote ↦ w
          | write_interrupted ↦ attempt n answers (suc i) w
          | write_would_block ↦ w
          | write_failed code ↦ fail code w
        ] in
          (r ≡ w) ⊎ ((code : ℕ) × (r ≡ fail code w))
    tried wrote ih = inl refl
    tried write_interrupted ih = ih
    tried write_would_block ih = inl refl
    tried (write_failed code) ih = inr (code, refl)

-- Every ring is counted, whatever the system answers; only a ring of a valid target that is not
-- asserted writes, once; and afterwards a valid target is asserted or no longer reliable, so that
-- its owner is woken or told to poll.
pub ring_effect :
    (answers : ℕ → Written) (w : WakeTarget)
    → ((ring answers w).rings ≡ suc w.rings)
      × ((ring answers w).writes ≡ (if valid w && not w.asserted then suc w.writes else w.writes))
      × (valid w ≡ true
          → ((ring answers w).asserted ≡ true) ⊎ (is_reliable (ring answers w) ≡ false))
unfolding ring is_reliable
ring_effect answers w = ground (
  arith,
  attempt-cases 8 answers 0
      (record w { rings = suc w.rings; asserted = true; writes = suc w.writes }),
)

unfoldable pub ring_all : List (ℕ → Written) → WakeTarget → WakeTarget
unfolding ring
ring_all [] w = w
ring_all (answers ∷ rest) w = ring_all rest (ring answers w)

ring_unreliable :
    (answers : ℕ → Written) (w : WakeTarget)
    → w.reliable ≡ false
    → (ring answers w).reliable ≡ false
unfolding ring fail
ring_unreliable answers w h = ground (
  arith,
  attempt-cases 8 answers 0
      (record w { rings = suc w.rings; asserted = true; writes = suc w.writes }),
)

ring_asserted :
    (answers : ℕ → Written) (w : WakeTarget)
    → (ring answers w).reliable ≡ true
    → valid w ≡ true
    → ((ring answers w).asserted ≡ true) × (valid (ring answers w) ≡ true)
unfolding ring fail valid
ring_asserted answers w h v = ground (
  arith,
  attempt-cases 8 answers 0
      (record w { rings = suc w.rings; asserted = true; writes = suc w.writes }),
)

ring_all-unreliable :
    (as' : List (ℕ → Written)) (w : WakeTarget)
    → w.reliable ≡ false
    → (ring_all as' w).reliable ≡ false
unfolding ring_all
ring_all-unreliable [] w h = h
ring_all-unreliable (a ∷ as') w h = ring_all-unreliable as' (ring a w) (ring_unreliable a w h)

ring_all-asserted :
    (as' : List (ℕ → Written)) (w : WakeTarget)
    → (ring_all as' w).reliable ≡ true
    → valid w ≡ true
    → w.asserted ≡ true
    → ((ring_all as' w).writes ≡ w.writes) × ((ring_all as' w).asserted ≡ true)
unfolding ring_all
ring_all-asserted [] w r v h = (refl, h)
ring_all-asserted (a ∷ as') w r v h = elim (Bool-cases (ring a w).reliable) [
  | inl good ↦
      ground (arith, ring_effect a w, ring_asserted a w good v, ring_all-asserted as' (ring a w) r)
  | inr bad ↦ ground (arith, ring_all-unreliable as' (ring a w) bad)
]

-- As long as the transport stays reliable, any positive number of rings of a silent valid target
-- writes to the kernel object exactly once, and leaves the target asserted.
pub ring_all-once :
    (a : ℕ → Written) (as' : List (ℕ → Written)) (w : WakeTarget)
    → (ring_all (a ∷ as') w).reliable ≡ true
    → valid w ≡ true
    → w.asserted ≡ false
    → ((ring_all (a ∷ as') w).writes ≡ suc w.writes) × ((ring_all (a ∷ as') w).asserted ≡ true)
unfolding ring_all
ring_all-once a as' w r v h = elim (Bool-cases (ring a w).reliable) [
  | inl good ↦
      ground (arith, ring_effect a w, ring_asserted a w good v, ring_all-asserted as' (ring a w) r)
  | inr bad ↦ ground (arith, ring_all-unreliable as' (ring a w) bad)
]
