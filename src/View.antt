-- ===== src/View.antt =====
-- include/tdlua/common/readiness_view.h, class ReadinessView: the readiness of one client for its
-- host. The hub and the runtime that it points to are passed and returned.
pub mod Watch
use tdlua.Prelude.{
  ℕ, Bool, true, false, ◌&&◌, ◌||◌, not, Option, none, some, List, lookup, ◌==◌, nonzero, is_some,
  if◌then◌else◌,
}
use tdlua.Prelude.Int.{ℤ, negsuc}
use tdlua.Mailbox.{Mailbox}
use tdlua.Receiver.State.{Runtime, Outcome, ok, thrown, touch, set_entry, out_of_heap}
use tdlua.Receiver.Demand.{start_locked}
use tdlua.Receiver.Interest.{Means, set_subscription_interest, acquire_watch, release_watch}
use tdlua.Receiver.Lifecycle.{client_known}
use tdlua.Wake.{WakeTarget, Polled, Drained}
use tdlua.Readiness.{
  Hub, Owner, owner_generation, enable_wake, wake_valid, wake_reliable, has_work,
  has_work_for_client, clear_wake, wait_owner,
}

-- The watch lease is its token.
pub record Subscription : Type 0 where
  pub client : ℕ
  pub generic : Bool
  pub watch : ℕ

-- `hub`, `engine` and `next_deadline` say whether the pointers and the callback are there.
pub record View : Type 0 where
  pub hub : Bool
  pub engine : Bool
  pub owner : ℕ
  pub client : ℕ
  pub owner_generation : ℕ
  pub next_deadline : Bool
  pub subscription : Option Subscription

unfoldable pub new_view : Bool → Bool → ℕ → ℕ → Bool → Hub → View
new_view hub engine owner client next_deadline h = record {
  hub = hub;
  engine = engine;
  owner = owner;
  client = client;
  owner_generation = if hub then owner_generation owner h else 0;
  next_deadline = next_deadline;
  subscription = none;
}

-- The move constructor: the new view, and what is left of the other.
unfoldable pub moved : View → View × View
moved v = (
  v,
  record {
    hub = false;
    engine = false;
    owner = 0;
    client = 0;
    owner_generation = 0;
    next_deadline = false;
    subscription = none;
  },
)

unfoldable pub owner_valid : View → Hub → Bool
owner_valid v h =
    nonzero v.owner_generation && v.hub && (owner_generation v.owner h == v.owner_generation)

unfoldable pub watch_active : View → Bool
watch_active v = is_some v.subscription

unfoldable pub view_wake_valid : View → Hub → Bool
view_wake_valid v h = v.hub && wake_valid v.owner h

unfoldable pub view_wake_reliable : View → Hub → Bool
view_wake_reliable v h = v.hub && wake_reliable v.owner h

unfoldable pub wait : Polled → View → Hub → ℤ
wait answer v h = if v.hub then wait_owner v.owner answer h else negsuc 0

-- A time, or `none` for an infinite one; the callback's answer is an argument.
unfoldable pub next_deadline_seconds : {T : Type 0} → T → View → Hub → Option T
unfolding owner_valid
next_deadline_seconds answer v h =
    if not (owner_valid v h) || not v.next_deadline then none else some answer

-- What `enableWatch` finds where it allocates: memory for all, none for a doorbell, or none for the
-- subscription.
pub data Heap : Type 0 where
  plentiful none_to_wake none_to_subscribe : Heap

abbrev pub cannot_wake : Heap → Bool
cannot_wake plentiful = false
cannot_wake none_to_wake = true
cannot_wake none_to_subscribe = false

-- `enableWake` allocates a doorbell where an attached owner has none.
abbrev pub makes_wake : Option Owner → Bool
makes_wake none = false
makes_wake (some w) = not (is_some w.wake)

module _ {A : Type 0} where
  unfoldable pub client_valid : View → Runtime A → Bool
  client_valid v r = v.engine && client_known v.client r

  unfoldable pub view_has_work : (ℕ → Mailbox A) → View → Hub → Bool
  view_has_work boxes v h = v.hub && has_work boxes v.owner h

  unfoldable pub view_has_work_for : (ℕ → Mailbox A) → ℕ → View → Hub → Bool
  view_has_work_for boxes client v h = v.hub && has_work_for_client boxes client h

  -- `~InterestRollback`, where it is not committed.
  abbrev pub roll_back : View → Bool → Runtime A → Runtime A
  roll_back v generic r = (set_subscription_interest v.client false generic r).1

  abbrev pub subscribed : Bool → View → ℕ → Runtime A → Outcome Bool × View × Runtime A
  subscribed generic v token r = (
    ok true,
    record v {
      subscription = some (record { client = v.client; generic = generic; watch = token });
    },
    r,
  )

  -- After the demand, the subscription itself.
  abbrev pub subscribe :
      Heap → Bool → View → Outcome (Option ℕ) × Runtime A → Outcome Bool × View × Runtime A
  subscribe heap generic v (thrown f, r) = (thrown f, v, roll_back v generic r)
  subscribe heap generic v (ok none, r) = (ok false, v, roll_back v generic r)
  subscribe plentiful generic v (ok (some token), r) = subscribed generic v token r
  subscribe none_to_wake generic v (ok (some token), r) = subscribed generic v token r
  subscribe none_to_subscribe generic v (ok (some token), r) =
      (thrown out_of_heap, v, roll_back v generic (release_watch token r))

  abbrev pub enable_interest :
      Heap → Means → Bool → View → Bool × Runtime A → Outcome Bool × View × Runtime A
  enable_interest heap means generic v (false, r) = (ok false, v, r)
  enable_interest heap means generic v (true, r) =
      subscribe heap generic v (acquire_watch means v.client r)

  abbrev pub enable_new :
      Heap
      → Means
      → Bool
      → WakeTarget
      → View
      → Hub
      → Runtime A
      → (Outcome Bool × View × Runtime A) × Hub
  enable_new heap means generic made v h r =
      if not v.hub || not v.engine || not (owner_valid v h)
      then ((ok false, v, r), h)
      else if cannot_wake heap && makes_wake (lookup v.owner h.owners)
      then ((thrown out_of_heap, v, r), h)
      else (
        enable_interest heap means generic v (set_subscription_interest v.client true generic r),
        (enable_wake v.owner made h).1,
      )

  abbrev pub enable_with :
      Option Subscription
      → Heap
      → Means
      → Bool
      → WakeTarget
      → View
      → Hub
      → Runtime A
      → (Outcome Bool × View × Runtime A) × Hub
  enable_with (some s) heap means generic made v h r =
      ((ok (if s.generic then generic else not generic), v, r), h)
  enable_with none heap means generic made v h r = enable_new heap means generic made v h r

  -- `made` is the doorbell that the hub would create; `heap` and `means` are what the call finds
  -- where it allocates and where it needs a thread or a token.
  unfoldable pub enable_watch :
      Heap
      → Means
      → Bool
      → WakeTarget
      → View
      → Hub
      → Runtime A
      → (Outcome Bool × View × Runtime A) × Hub
  unfolding owner_valid acquire_watch release_watch set_subscription_interest
  enable_watch heap means generic made v h r =
      enable_with v.subscription heap means generic made v h r

  abbrev pub disable_with : Option Subscription → View → Runtime A → View × Runtime A
  disable_with none v r = (v, r)
  disable_with (some s) v r = (
    record v { subscription = none },
    (set_subscription_interest s.client false s.generic (release_watch s.watch r)).1,
  )

  unfoldable pub disable_watch : View → Runtime A → View × Runtime A
  unfolding release_watch set_subscription_interest
  disable_watch v r = disable_with v.subscription v r

-- `clearWake` of the view; `none` of the hub stands for answers that run out.
unfoldable pub view_clear_wake : List Drained → View → Hub → Option Hub
view_clear_wake answers v h = if v.hub then clear_wake v.owner answers h else some h
