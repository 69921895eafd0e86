-- ===== src/Examples/Receives.antt =====
-- A client receives, while others come and go.
use tdlua.Prelude.{
  ℕ, ◌+◌, ◌≡◌, refl, is_some, true, Option, none, some, lookup, insert, List, [], ◌∷◌,
}
use tdlua.Mailbox.{Round, timeout}
use tdlua.Receiver.Leases.History.{Event, acquires_driver, acquires_watch, releases_driver}
use tdlua.Receiver.Leases.{IsBalanced}
use tdlua.Receiver.State.{Runtime, Outcome, ok, touch, set_entry}
use tdlua.Receiver.Demand.{start_locked}
use tdlua.Receiver.Interest.{enough, acquire_driver}
use tdlua.Receiver.Receive.{
  Answer, receive_mailbox, receive_mailbox-releases, receive_mailbox_returns,
}
use tdlua.Examples.Routing.{runtime, runtime-IsBalanced}

abbrev clock : ℕ → ℕ
clock n = 20 + n

-- The second wake-up is after the deadline.
abbrev rounds : List (Round ℕ)
rounds =
    record { clock = clock; now = 21; others = λ s. s }
    ∷ record { clock = clock; now = 90; others = λ s. s }
    ∷ []

-- What other threads do while client 1 waits: token 1 is released under it, and given twice more.
abbrev meanwhile : List Event
meanwhile = acquires_watch enough 1 ∷ releases_driver 1 ∷ acquires_driver enough 1 ∷ []

abbrev given : Option (Outcome (Answer ℕ) × Runtime ℕ) → Outcome (Answer ℕ) × Runtime ℕ
given none = (ok (timeout, none), runtime)
given (some x) = x

abbrev call : Outcome (Answer ℕ) × Runtime ℕ
call = given (receive_mailbox enough 1 true 60 clock rounds meanwhile runtime)

lease_given : (acquire_driver enough 1 runtime).0 ≡ ok (some 1)
unfolding acquire_driver start_locked touch set_entry lookup insert
lease_given = refl

returned :
    (o : Option (Outcome (Answer ℕ) × Runtime ℕ))
    → is_some o ≡ true
    → o ≡ some ((given o).0, (given o).1)
returned none h = cc
returned (some x) h = refl

receive_mailbox-releases_example : (lookup 1 call.1.driver_tokens ≡ none) × IsBalanced call.1
receive_mailbox-releases_example =
    receive_mailbox-releases enough 1 60 clock rounds meanwhile runtime 1 call.0 call.1
      runtime-IsBalanced lease_given
      (returned (receive_mailbox enough 1 true 60 clock rounds meanwhile runtime)
        (receive_mailbox_returns enough 1 true 60 clock rounds meanwhile runtime refl))

receive_mailbox_returns_example :
    is_some (receive_mailbox enough 1 true 60 clock rounds meanwhile runtime) ≡ true
receive_mailbox_returns_example =
    receive_mailbox_returns enough 1 true 60 clock rounds meanwhile runtime refl
