-- ===== src/Examples/Buffering.antt =====
-- The buffer of a client with room for two generic envelopes.
use tdlua.Prelude.{ℕ, List, [], ◌∷◌}
use tdlua.Ticket.{generic, subscription}
use tdlua.Mailbox
use tdlua.Receiver.Generic.Bound.{
  Event, admits, asks, releases, others_acquire, uses, happen_all, unused, IsBounded,
  happen_all-IsBounded,
}

-- The third ticket evicts the first, and the fifth finds the second expired and the fourth
-- consumed.
abbrev events : List (Event ℕ)
events =
    admits 1 1 generic
    ∷ admits 2 2 generic
    ∷ admits 3 3 subscription
    ∷ others_acquire 8 3 generic
    ∷ uses Mailbox.empty
    ∷ admits 3 3 generic
    ∷ asks 1 70
    ∷ releases 4
    ∷ admits 70 70 generic
    ∷ []

happen_all-IsBounded_example : IsBounded 1 7 (happen_all 2 60 7 unused events)
happen_all-IsBounded_example = happen_all-IsBounded 1 60 7 events
