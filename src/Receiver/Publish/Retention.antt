-- ===== src/Receiver/Publish/Retention.antt =====
-- Which envelopes the receiver keeps, and which of those can be dropped later.
use Prim.Native.String.{String}
use text.Mathlib.Text.{◌==◌ as str_eq}
use tdlua.Prelude.{ℕ, ◌≡◌, ◌≢◌, Bool, true, false, ◌&&◌, ◌||◌, not, none, arith, nonzero}
use tdlua.Mailbox.{generic_raw}
use tdlua.Receiver.State.{Entry}
use tdlua.Receiver.Publish.Decision.{
  Verdict, filtered, dropped, kept, class_of, decide, driver_active, generic_consumer,
  selected_handler_update, handler_filter, preserve, generic_update, subscription_update,
  ticket_channel,
}

-- An answer to a request, a terminal update, or an update while a close or destroy is in flight.
abbrev pub is_owed : Entry → Bool → ℕ → Bool
is_owed e terminal request_id = nonzero request_id || terminal || nonzero e.lifecycle_demands

-- An answer to a request, a terminal update, and any update while a lifecycle demand is open, pass
-- the retention decision, whatever the client's interests: they are neither filtered out nor
-- discarded there. What passes goes on with the ticket that `ticket_channel` picks, and where that
-- is one, as for a raw answer, the capacity or the age limit of the generic buffer can still drop it
-- later.
pub decide_owed :
    (e : Entry) (interested terminal : Bool) (request_id : ℕ) (event_type : String)
    → is_owed e terminal request_id ≡ true
    → decide e interested terminal request_id event_type
      ≡ kept (ticket_channel e interested terminal request_id event_type)
unfolding decide handler_filter preserve
decide_owed e interested terminal request_id event_type h = ground arith

-- Each of the interests for which alone an unsolicited update is kept. A generic subscription
-- keeps nothing by itself beside a handler-only consumer, nor beside a driver.
abbrev pub is_wanted : Entry → Bool → String → Bool
is_wanted e interested t =
    generic_consumer e interested
    || selected_handler_update e t
    || driver_active e
      && (not (nonzero e.handler_only_consumers) || nonzero e.subscription_generic || str_eq t "")
    || nonzero e.subscription_generic
      && not (driver_active e)
      && not (nonzero e.handler_only_consumers)

abbrev pub retains : Verdict → Bool
retains filtered = false
retains dropped = false
retains (kept c) = true

-- An answer or a terminal update whose class is not the generic one is kept and takes no ticket,
-- so that neither the capacity nor the age limit drops it: answers to managed requests, the
-- objects of a shutdown, and the terminal update.
pub decide_protected :
    (e : Entry) (interested terminal : Bool) (request_id : ℕ) (event_type : String)
    → (nonzero request_id || terminal) ≡ true
    → class_of e terminal request_id ≢ generic_raw
    → decide e interested terminal request_id event_type ≡ kept none
unfolding decide ticket_channel handler_filter preserve generic_update subscription_update
decide_protected e interested terminal request_id event_type h c = ground arith
