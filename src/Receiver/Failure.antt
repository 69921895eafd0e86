-- ===== src/Receiver/Failure.antt =====
-- What a failure of the worker means for everybody else.
use tdlua.Prelude.{
  ℕ, ◌≡◌, refl, ap, true, false, [], ◌∷◌, Map, lookup, lookup-insert, map_values, arith, ◌==◌,
  is_some, if◌then◌else◌,
}
use tdlua.Mailbox.{Mailbox, Failure, no_failure, is_failure}
use tdlua.Mailbox
use tdlua.Receiver.State.{Runtime, Entry, broken, box_or_new, box_of, set_box}
use tdlua.Receiver.Lifecycle.{fail, fail_boxes, break_down, count_failure}

-- The first of two failures.
abbrev pub first : Failure → Failure → Failure
first f g = if is_failure f then f else g

lookup_mapped :
    (f : Entry → Entry) (id : ℕ) (es : Map Entry)
    → is_some (lookup id (map_values f es)) ≡ is_some (lookup id es)
unfolding map_values lookup
lookup_mapped f id [] = refl
lookup_mapped f id ((j, e) ∷ es) = ground (arith, lookup_mapped f id es)

module _ {A : Type 0} where
  -- The mailbox of a client in the store.
  abbrev pub box_failure : ℕ → Runtime A → Failure
  box_failure id r = (box_of id r).failure

  fail-first : (f : Failure) (m : Mailbox A) → (Mailbox.fail f m).failure ≡ first m.failure f
  unfolding Mailbox.fail
  fail-first f m = ground arith

  set_box-failure :
      (id j : ℕ) (m : Mailbox A) (r : Runtime A)
      → box_failure j (set_box id m r) ≡ (if id == j then m.failure else box_failure j r)
  unfolding box_of set_box
  set_box-failure id j m r =
      ground (arith, ap (λ o. (box_or_new o).failure) (lookup-insert id j m r.boxes))

  fail_boxes-failure :
      (f : Failure) (es : Map Entry) (j : ℕ) (r : Runtime A)
      → box_failure j (fail_boxes f es r)
        ≡ (if is_some (lookup j es) then first (box_failure j r) f else box_failure j r)
  unfolding fail_boxes lookup
  fail_boxes-failure f [] j r = refl
  fail_boxes-failure f ((id, e) ∷ rest) j r =
      let m = Mailbox.fail f (box_of id r) in
      ground (
        arith,
        fail_boxes-failure f rest j (set_box id m r),
        set_box-failure id j m r,
        fail-first f (box_of id r),
      )

  -- The worker is gone.
  pub record IsBroken (r : Runtime A) : Type 0 where
    pub state : r.state ≡ broken
    pub failure : is_failure r.failure ≡ true
    pub stop : r.stop ≡ true
    pub receiving : r.receiving ≡ false
    pub watches : r.watch_tokens ≡ []

  count_failure-facts :
      (f : Failure) (r : Runtime A)
      → ((count_failure f r).failure ≡ first r.failure f)
        × ((count_failure f r).boxes ≡ r.boxes)
        × ((count_failure f r).entries ≡ r.entries)
  count_failure-facts f r = (ground arith, ground arith, ground arith)

  -- Only the store of mailboxes changes.
  abbrev SameStatus : Runtime A → Runtime A → Type 0
  SameStatus r r' =
      (r'.state ≡ r.state)
      × (r'.failure ≡ r.failure)
      × (r'.stop ≡ r.stop)
      × (r'.receiving ≡ r.receiving)
      × (r'.watch_tokens ≡ r.watch_tokens)

  fail_boxes-same :
      (f : Failure) (es : Map Entry) (r : Runtime A) → SameStatus r (fail_boxes f es r)
  unfolding fail_boxes set_box
  fail_boxes-same f [] r = (refl, refl, refl, refl, refl)
  fail_boxes-same f ((id, e) ∷ rest) r = fail_boxes-same f rest (set_box id _ r)

  -- A failure breaks the runtime; the first failure is the one that is recorded, and each
  -- registered client's mailbox has a failure afterwards: its own first one, or the recorded one.
  pub fail-breaks :
      (f : Failure) (r : Runtime A)
      → is_failure f ≡ true
      → IsBroken (fail f r).1
        × ((fail f r).1.failure ≡ first r.failure f)
        × ((id : ℕ)
            → is_some (lookup id r.entries) ≡ true
            → box_failure id (fail f r).1 ≡ first (box_failure id r) (first r.failure f))
  unfolding fail
  fail-breaks f r real = (broken_down, ground (arith, same.1, facts.0), told)
    where
      facts :
          ((count_failure f r).failure ≡ first r.failure f)
          × ((count_failure f r).boxes ≡ r.boxes)
          × ((count_failure f r).entries ≡ r.entries)
      facts = count_failure-facts f r

      same : SameStatus (break_down (count_failure f r)) (fail f r).1
      same =
          fail_boxes-same (count_failure f r).failure (count_failure f r).entries
            (break_down (count_failure f r))

      broken_down : IsBroken (fail f r).1
      broken_down = record {
        state = same.0;
        failure = ground (arith, same.1, facts.0);
        stop = same.2;
        receiving = same.3;
        watches = same.4;
      }

      told :
          (id : ℕ)
          → is_some (lookup id r.entries) ≡ true
          → box_failure id (fail f r).1 ≡ first (box_failure id r) (first r.failure f)
      told id there =
          unfold box_of in
          ground (
            arith,
            fail_boxes-failure (count_failure f r).failure (count_failure f r).entries id
                (break_down (count_failure f r)),
            facts.0,
            ap (λ m. is_some (lookup id m)) facts.2,
            ap (λ (m : Map (Mailbox A)). (box_or_new (lookup id m)).failure) facts.1,
          )
