-- ===== src/Receiver/Publish/Decision.antt =====
-- The retention decision of `Runtime::publish`, on the entry and the envelope's own fields.
use Prim.Native.String.{String}
use text.Mathlib.Text.{◌==◌ as str_eq}
use tdlua.Prelude.{
  ℕ, Bool, true, false, ◌&&◌, ◌||◌, not, Option, none, some, lookup, nonzero, is_some,
  if◌then◌else◌,
}
use tdlua.Ticket.{Channel, generic, subscription}
use tdlua.Mailbox.{ResponseClass, generic_raw, managed_protected, lifecycle}
use tdlua.Receiver.State.{Entry}
use tdlua.Receiver.Interest.{handler_count}

-- `kept` with the channel of its generic ticket, if it takes one.
pub data Verdict : Type 0 where
  filtered dropped : Verdict
  kept : Option Channel → Verdict

abbrev pub class_from : Bool → Option ResponseClass → ResponseClass
class_from true c = lifecycle
class_from false (some lifecycle) = lifecycle
class_from false (some generic_raw) = managed_protected
class_from false (some managed_protected) = managed_protected
class_from false none = generic_raw

unfoldable pub class_of : Entry → Bool → ℕ → ResponseClass
class_of e terminal request_id = class_from terminal (lookup request_id e.protected_requests)

abbrev pub is_generic_raw : ResponseClass → Bool
is_generic_raw generic_raw = true
is_generic_raw managed_protected = false
is_generic_raw lifecycle = false

unfoldable pub driver_active : Entry → Bool
driver_active e = nonzero e.active_drivers || e.one_shot_pending || e.one_shot_in_flight

unfoldable pub generic_consumer : Entry → Bool → Bool
generic_consumer e interested = nonzero e.consumer_interests || not e.orphan && interested

unfoldable pub handler_registered : Entry → String → Bool
handler_registered e event_type = is_some (handler_count event_type e.handler_types)

unfoldable pub selected_handler_update : Entry → String → Bool
selected_handler_update e event_type =
    (nonzero e.handler_only_consumers || nonzero e.subscription_handlers)
    && handler_registered e event_type

-- Any interest other than a subscription.
unfoldable pub traditional : Entry → Bool → Bool
traditional e interested =
    driver_active e
    || generic_consumer e interested
    || nonzero e.handler_only_consumers
    || nonzero e.lifecycle_demands

unfoldable pub subscription_only : Entry → Bool → Bool
subscription_only e interested =
    not (traditional e interested)
    && (nonzero e.subscription_generic || nonzero e.subscription_handlers)

unfoldable pub handler_filter : Entry → Bool → Bool → ℕ → String → Bool
handler_filter e interested terminal request_id event_type =
    (nonzero e.handler_only_consumers
      || subscription_only e interested
        && nonzero e.subscription_handlers
        && not (nonzero e.subscription_generic))
    && not (generic_consumer e interested)
    && not (nonzero e.subscription_generic)
    && not (str_eq event_type "")
    && not (selected_handler_update e event_type)
    && not (nonzero request_id)
    && not terminal
    && not (nonzero e.lifecycle_demands)

unfoldable pub preserve : Entry → Bool → Bool → ℕ → String → Bool
preserve e interested terminal request_id event_type =
    nonzero request_id
    || terminal
    || nonzero e.lifecycle_demands
    || driver_active e
    || generic_consumer e interested
    || selected_handler_update e event_type
    || subscription_only e interested
      && nonzero e.subscription_generic
      && (not (nonzero request_id) && not terminal)

unfoldable pub generic_update : Entry → Bool → Bool → ℕ → String → Bool
generic_update e interested terminal request_id event_type =
    not (nonzero request_id)
    && not terminal
    && not (nonzero e.lifecycle_demands)
    && (generic_consumer e interested || driver_active e && not (nonzero e.handler_only_consumers))
    && not (selected_handler_update e event_type)

unfoldable pub subscription_update : Entry → Bool → Bool → ℕ → String → Bool
subscription_update e interested terminal request_id event_type =
    subscription_only e interested
    && (not (nonzero request_id) && not terminal)
    && (nonzero e.subscription_generic
        || nonzero e.subscription_handlers && handler_registered e event_type)

-- The ticket of a kept envelope.
unfoldable pub ticket_channel : Entry → Bool → Bool → ℕ → String → Option Channel
ticket_channel e interested terminal request_id event_type =
    if generic_update e interested terminal request_id event_type
      || subscription_update e interested terminal request_id event_type
      || nonzero request_id && is_generic_raw (class_of e terminal request_id)
    then some (
        if subscription_update e interested terminal request_id event_type
        then subscription
        else generic)
    else none

unfoldable pub decide : Entry → Bool → Bool → ℕ → String → Verdict
decide e interested terminal request_id event_type =
    if handler_filter e interested terminal request_id event_type
    then filtered
    else if not (preserve e interested terminal request_id event_type)
    then dropped
    else kept (ticket_channel e interested terminal request_id event_type)
