-- ===== src/Receiver/Receive.antt =====
-- `receiveMailbox`: how a client takes an envelope out. The deadline's arithmetic on doubles is
-- left to the caller; `patient` says that the timeout is positive.
use tdlua.Prelude.{
  ℕ, ◌≡◌, refl, Bool, true, false, not, ◌||◌, is_some, Option, none, some, List, if◌then◌else◌,
  if_both, subst, sym, lookup, erase, lookup-erase, ==_refl, arith,
}
use tdlua.Mailbox.Waiting.{any_late, pop_until_returns}
use tdlua.Mailbox.{Envelope, Pop, timeout, Popped, Round, pop_locked, pop_until}
use tdlua.Receiver.State.{Runtime, Outcome, ok, thrown, and_then, box_of, set_store}
use tdlua.Receiver.State.{Entry, touch, set_entry}
use tdlua.Receiver.Interest.{
  Means, release_driver_at, lower_drivers, acquire_driver, release_driver, request_one_shot,
}
use tdlua.Receiver.Leases.{
  IsBalanced, same-IsBalanced, acquire_driver-IsBalanced, release_driver-IsBalanced,
}
use tdlua.Receiver.Leases.History.{
  Event, happen_all, request_one_shot-IsBalanced, happen_all-IsBalanced,
}

abbrev pub is_timeout : Pop → Bool
is_timeout timeout = true
is_timeout _ = false

-- The answer of a pop: its status, and the item.
abbrev pub Answer : Type 0 → Type 0
Answer A = Pop × Option (Envelope A)

module _ {A : Type 0} where
  abbrev pub popped_into : ℕ → Popped A → Runtime A → Runtime A
  popped_into id p r = set_store id (p.buffers, p.box) r

  abbrev pub polled : Means → ℕ → Popped A → Runtime A → Outcome (Answer A) × Runtime A
  polled means id p r =
      if is_timeout p.status
      then (and_then (request_one_shot means id r) λ _ r'. (ok (p.status, p.item), r'))
      else (ok (p.status, p.item), r)

  -- `~DemandLease`
  unfoldable pub drop_lease : Option ℕ → Runtime A → Runtime A
  drop_lease none r = r
  drop_lease (some token) r = release_driver token r

  -- `none` while the client still waits. The events are those of other threads during the wait.
  abbrev pub waited :
      ℕ
      → List Event
      → Option ℕ
      → Option (Popped A)
      → Runtime A
      → Option (Outcome (Answer A) × Runtime A)
  waited id es lease none r = none
  waited id es lease (some p) r =
      some (ok (p.status, p.item), drop_lease lease (popped_into id p (happen_all r es)))

  abbrev pub leased :
      ℕ
      → ℕ
      → List (Round A)
      → List Event
      → Outcome (Option ℕ) × Runtime A
      → Option (Outcome (Answer A) × Runtime A)
  leased id deadline rounds es (thrown e, r) = some (thrown e, r)
  leased id deadline rounds es (ok lease, r) =
      waited id es lease (pop_until deadline rounds (r.buffers, box_of id r)) r

  -- `means` is what the call finds where it needs a thread or a token.
  unfoldable pub receive_mailbox :
      Means
      → ℕ
      → Bool
      → ℕ
      → (ℕ → ℕ)
      → List (Round A)
      → List Event
      → Runtime A
      → Option (Outcome (Answer A) × Runtime A)
  unfolding drop_lease set_store
  receive_mailbox means id patient deadline clock rounds es r =
      if patient
      then leased id deadline rounds es (acquire_driver means id r)
      else (let p = pop_locked clock r.buffers (box_of id r) in
          some (polled means id p (popped_into id p r)))

  popped_into-IsBalanced :
      (id : ℕ) (p : Popped A) (r : Runtime A) → IsBalanced r → IsBalanced (popped_into id p r)
  unfolding set_store
  popped_into-IsBalanced id p r v =
      same-IsBalanced r (popped_into id p r) (refl, refl, refl, refl, refl) v

  polled-IsBalanced :
      (means : Means) (id : ℕ) (p : Popped A) (r : Runtime A)
      → IsBalanced r
      → IsBalanced (polled means id p r).1
  polled-IsBalanced means id p r v =
      if_both (λ (m : Outcome (Answer A) × Runtime A). IsBalanced m.1) (is_timeout p.status)
        (asked (request_one_shot means id r) (request_one_shot-IsBalanced means id r v)) v
    where
      asked :
          (m : Outcome Bool × Runtime A)
          → IsBalanced m.1
          → IsBalanced (and_then {C = Answer A} m λ _ r'. (ok (p.status, p.item), r')).1
      asked (ok b, r') w = w
      asked (thrown e, r') w = w

  drop_lease-IsBalanced :
      (lease : Option ℕ) (r : Runtime A) → IsBalanced r → IsBalanced (drop_lease lease r)
  unfolding drop_lease
  drop_lease-IsBalanced none r v = v
  drop_lease-IsBalanced (some token) r v = release_driver-IsBalanced token r v

  -- Balanced, if the call has returned.
  abbrev pub Balances : Option (Outcome (Answer A) × Runtime A) → Type 0
  Balances none = Unit {0}
  Balances (some (o, r)) = IsBalanced r

  waited-Balances :
      (id : ℕ) (es : List Event) (lease : Option ℕ) (o : Option (Popped A)) (r : Runtime A)
      → IsBalanced r
      → Balances (waited id es lease o r)
  waited-Balances id es lease none r v = tt
  waited-Balances id es lease (some p) r v =
      drop_lease-IsBalanced lease _
        (popped_into-IsBalanced id p (happen_all r es) (happen_all-IsBalanced r es v))

  leased-Balances :
      (id deadline : ℕ) (rounds : List (Round A)) (es : List Event)
      (m : Outcome (Option ℕ) × Runtime A)
      → IsBalanced m.1
      → Balances (leased id deadline rounds es m)
  leased-Balances id deadline rounds es (thrown e, r) v = v
  leased-Balances id deadline rounds es (ok lease, r) v =
      waited-Balances id es lease (pop_until deadline rounds (r.buffers, box_of id r)) r v

  receive_mailbox-Balances :
      (means : Means) (id : ℕ) (patient : Bool) (deadline : ℕ) (clock : ℕ → ℕ)
      (rounds : List (Round A)) (es : List Event) (r : Runtime A)
      → IsBalanced r
      → Balances (receive_mailbox means id patient deadline clock rounds es r)
  unfolding receive_mailbox
  receive_mailbox-Balances means id patient deadline clock rounds es r v =
      let p = pop_locked clock r.buffers (box_of id r) in
      if_both Balances patient
        (leased-Balances id deadline rounds es (acquire_driver means id r)
          (acquire_driver-IsBalanced means id r v))
        (polled-IsBalanced means id p (popped_into id p r) (popped_into-IsBalanced id p r v))

  release_driver-lookup :
      (token : ℕ) (r : Runtime A) → lookup token (release_driver token r).driver_tokens ≡ none
  unfolding release_driver touch set_entry
  release_driver-lookup token r = held (lookup token r.driver_tokens) refl
    where
      held :
          (o : Option ℕ)
          → lookup token r.driver_tokens ≡ o
          → lookup token (release_driver_at token o r).driver_tokens ≡ none
      held none e = e
      held (some id) e = lowered (lookup id r.entries)
        where
          lowered :
              (o : Option Entry)
              → lookup token (erase token (lower_drivers id o r).driver_tokens) ≡ none
          lowered none = ground (arith, lookup-erase token token r.driver_tokens, ==_refl token)
          lowered (some e) = ground (arith, lookup-erase token token r.driver_tokens, ==_refl token)

  -- No token of this number is left, if the call has returned.
  abbrev Frees : ℕ → Option (Outcome (Answer A) × Runtime A) → Type 0
  Frees token none = Unit {0}
  Frees token (some (o, r)) = lookup token r.driver_tokens ≡ none

  leased-Frees :
      (token id deadline : ℕ) (rounds : List (Round A)) (es : List Event)
      (m : Outcome (Option ℕ) × Runtime A)
      → m.0 ≡ ok (some token)
      → Frees token (leased id deadline rounds es m)
  unfolding drop_lease
  leased-Frees token id deadline rounds es (o, r) e =
      subst (λ (o : Outcome (Option ℕ)). Frees token (leased id deadline rounds es (o, r))) (sym e)
        (freed (pop_until deadline rounds (r.buffers, box_of id r)))
    where
      freed : (p : Option (Popped A)) → Frees token (waited id es (some token) p r)
      freed none = tt
      freed (some p) = release_driver-lookup token (popped_into id p (happen_all r es))

  -- On a runtime whose lease counters agree with its tokens, a receive call that waits and has got
  -- a driver lease has released that very lease when it returns: its token is gone, whatever
  -- happened to the leases of all clients meanwhile, its own included; and each client's counters
  -- are again equal to the number of its live tokens.
  pub receive_mailbox-releases :
      (means : Means) (id deadline : ℕ) (clock : ℕ → ℕ) (rounds : List (Round A)) (es : List Event)
      (r : Runtime A) (token : ℕ) (o : Outcome (Answer A)) (r' : Runtime A)
      → IsBalanced r
      → (acquire_driver means id r).0 ≡ ok (some token)
      → receive_mailbox means id true deadline clock rounds es r ≡ some (o, r')
      → (lookup token r'.driver_tokens ≡ none) × IsBalanced r'
  unfolding receive_mailbox
  receive_mailbox-releases means id deadline clock rounds es r token o r' v got e = (
    subst (Frees token) e
        (leased-Frees token id deadline rounds es (acquire_driver means id r) got),
    subst Balances e (receive_mailbox-Balances means id true deadline clock rounds es r v),
  )

  leased_returns :
      (id deadline : ℕ) (rounds : List (Round A)) (es : List Event)
      (m : Outcome (Option ℕ) × Runtime A)
      → any_late deadline rounds ≡ true
      → is_some (leased id deadline rounds es m) ≡ true
  leased_returns id deadline rounds es (thrown e, r) h = refl
  leased_returns id deadline rounds es (ok lease, r) h =
      given (pop_until deadline rounds (r.buffers, box_of id r))
        (pop_until_returns deadline rounds (r.buffers, box_of id r) h)
    where
      given : (o : Option (Popped A)) → is_some o ≡ true → is_some (waited id es lease o r) ≡ true
      given none e = e
      given (some p) e = refl

  -- A receive call returns or throws: at once if it only looks, and if it waits at the latest at
  -- the first wake-up that is not before the deadline.
  pub receive_mailbox_returns :
      (means : Means) (id : ℕ) (patient : Bool) (deadline : ℕ) (clock : ℕ → ℕ)
      (rounds : List (Round A)) (es : List Event) (r : Runtime A)
      → (not patient || any_late deadline rounds) ≡ true
      → is_some (receive_mailbox means id patient deadline clock rounds es r) ≡ true
  unfolding receive_mailbox
  receive_mailbox_returns means id false deadline clock rounds es r h = refl
  receive_mailbox_returns means id true deadline clock rounds es r h =
      leased_returns id deadline rounds es (acquire_driver means id r) h
