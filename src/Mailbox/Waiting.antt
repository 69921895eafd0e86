-- ===== src/Mailbox/Waiting.antt =====
-- A wait in `popUntil` ends at its deadline.
use tdlua.Prelude.{
  ℕ, ◌≡◌, refl, Bool, true, false, ◌||◌, List, [], ◌∷◌, leb, is_some, arith, Bool-cases, inl, inr,
}
use tdlua.Ticket.{Buffers}
use tdlua.Mailbox.{
  Mailbox, Pop, item, timeout, closed, failed, Round, settled, pop_locked, pop_until,
}

late_settled :
    (p : Pop) (now deadline : ℕ) → leb deadline now ≡ true → settled p now deadline ≡ true
late_settled item now deadline h = refl
late_settled timeout now deadline h = h
late_settled closed now deadline h = refl
late_settled failed now deadline h = refl

module _ {A : Type 0} where
  -- One of the wake-ups is at the deadline or after it.
  abbrev pub any_late : ℕ → List (Round A) → Bool
  any_late deadline [] = false
  any_late deadline (r ∷ rs) = leb deadline r.now || any_late deadline rs

  -- A wait returns, at the latest at the first wake-up that is not before the deadline, however
  -- often it is woken before.
  pub pop_until_returns :
      (deadline : ℕ) (rounds : List (Round A)) (s : Buffers × Mailbox A)
      → any_late deadline rounds ≡ true
      → is_some (pop_until deadline rounds s) ≡ true
  unfolding pop_until
  pop_until_returns deadline [] s h = cc
  pop_until_returns deadline (r ∷ rs) (b, m) h =
      let p = pop_locked r.clock b m in
      elim (Bool-cases (settled p.status r.now deadline)) [
        | inl done ↦ rw (done, pop_until) refl
        | inr on ↦
            rw (on, pop_until)
              (pop_until_returns deadline rs _
                (ground (arith, h, late_settled p.status r.now deadline)))
      ]
