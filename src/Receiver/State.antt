-- ===== src/Receiver/State.antt =====
-- The members of Runtime and of its registry entries. Each operation of the sibling modules is what
-- one thread does while it holds `mutex_`; a thrown exception is an Outcome beside the state that
-- it leaves. `changed_.notify_all()` moves no state. Counters do not reach 2 ^ 64.
use Prim.Native.String.{String}
use tdlua.Prelude.{
  ℕ, zero, suc, Bool, true, false, Option, none, some, List, [], Map, lookup, insert, erase,
}
use tdlua.Identity.{History}
use tdlua.Identity
use tdlua.Ticket.{Buffers, no_buffers}
use tdlua.Mailbox.{Mailbox, Failure, no_failure, ResponseClass, Pop}
use tdlua.Mailbox

pub data State : Type 0 where
  stopped running stopping broken : State

-- The exceptions of this class: a runtime_error with the message of a failure, and logic_errors.
pub data Fault : Type 0 where
  receiver_failed : Failure → Fault
  owner_unavailable client_id_reused generation_not_joined self_join_forbidden : Fault
  unknown_client invalid_id client_closed hook_failed join_failed thread_failed out_of_heap : Fault

pub data Outcome (B : Type 0) : Type 0 where
  ok : B → Outcome B
  thrown : Fault → Outcome B

pub record Entry : Type 0 where
  pub owner : ℕ
  pub orphan : Bool
  pub terminal : Bool
  pub active_drivers : ℕ
  pub lifecycle_demands : ℕ
  pub watch_demands : ℕ
  pub consumer_interests : ℕ
  pub handler_only_consumers : ℕ
  pub subscription_generic : ℕ
  pub subscription_handlers : ℕ
  pub handler_types : List (String × ℕ)
  pub one_shot_pending : Bool
  pub one_shot_in_flight : Bool
  pub pending_requests : Map ℕ
  pub protected_requests : Map ResponseClass
  pub generic_fifo : List ℕ

abbrev pub new_entry : ℕ → Entry
new_entry owner = record {
  owner = owner;
  orphan = false;
  terminal = false;
  active_drivers = 0;
  lifecycle_demands = 0;
  watch_demands = 0;
  consumer_interests = 0;
  handler_only_consumers = 0;
  subscription_generic = 0;
  subscription_handlers = 0;
  handler_types = [];
  one_shot_pending = false;
  one_shot_in_flight = false;
  pending_requests = [];
  protected_requests = [];
  generic_fifo = [];
}

-- The counters of RuntimeStats that the class itself changes; `stats()` fills in the others.
pub record Counters : Type 0 where
  pub generations : ℕ
  pub received : ℕ
  pub published : ℕ
  pub abandoned : ℕ
  pub close_timeouts : ℕ
  pub failures : ℕ
  pub receive_calls : ℕ
  pub dropped_unsolicited : ℕ
  pub generic_raws : ℕ
  pub managed_protecteds : ℕ
  pub lifecycle_objects : ℕ
  pub unknown_correlated : ℕ
  pub dropped_by_handler_filter : ℕ
  pub enqueued : ℕ
  pub dequeued : ℕ
  pub high_water : ℕ
  pub watch_receive_calls : ℕ
  pub empty_receive_calls : ℕ

abbrev pub no_counters : Counters
no_counters = record {
  generations = 0;
  received = 0;
  published = 0;
  abandoned = 0;
  close_timeouts = 0;
  failures = 0;
  receive_calls = 0;
  dropped_unsolicited = 0;
  generic_raws = 0;
  managed_protecteds = 0;
  lifecycle_objects = 0;
  unknown_correlated = 0;
  dropped_by_handler_filter = 0;
  enqueued = 0;
  dequeued = 0;
  high_water = 0;
  watch_receive_calls = 0;
  empty_receive_calls = 0;
}

-- `boxes` and `buffers` are the store: the mailbox of a client stands under the client's id, also
-- while only the backend or the readiness hub still holds its shared_ptr. `worker` says that
-- `worker_` is joinable.
pub record Runtime (A : Type 0) : Type 0 where
  pub timeout : ℕ
  pub generic_capacity : ℕ
  pub generic_ttl : ℕ
  pub entries : Map Entry
  pub boxes : Map (Mailbox A)
  pub buffers : Buffers
  pub driver_tokens : Map ℕ
  pub watch_tokens : Map ℕ
  pub sink : Bool
  pub known_ids : History
  pub owners : Map (Unit {0})
  pub worker : Bool
  pub stop : Bool
  pub joining : Bool
  pub state : State
  pub failure : Failure
  pub next_owner : ℕ
  pub sequence : ℕ
  pub generation : ℕ
  pub next_demand_token : ℕ
  pub next_watch_token : ℕ
  pub receiving : Bool
  pub stats : Counters

-- The calls that an operation makes on the ReadinessSink once `mutex_` is released.
pub data SinkCall : Type 0 where
  ring_client ring_owner unbind_client unbind_owner : ℕ → SinkCall
  broadcast : SinkCall

abbrev pub told : Bool → List SinkCall → List SinkCall
told true calls = calls
told false calls = []

-- The constructor, which throws invalid_argument on a zero timeout, capacity or lifetime.
unfoldable pub init : {A : Type 0} → ℕ → ℕ → ℕ → Option (Runtime A)
init zero capacity ttl = none
init (suc t) zero ttl = none
init (suc t) (suc c) zero = none
init (suc t) (suc c) (suc l) = some (record {
  timeout = suc t;
  generic_capacity = suc c;
  generic_ttl = suc l;
  entries = [];
  boxes = [];
  buffers = no_buffers;
  driver_tokens = [];
  watch_tokens = [];
  sink = false;
  known_ids = Identity.empty;
  owners = [];
  worker = false;
  stop = false;
  joining = false;
  state = stopped;
  failure = no_failure;
  next_owner = 0;
  sequence = 0;
  generation = 0;
  next_demand_token = 0;
  next_watch_token = 0;
  receiving = false;
  stats = no_counters;
})

abbrev pub Do : Type 0 → Type 0 → Type 0
Do A B = Runtime A → Outcome B × Runtime A

-- The rest of a function after a call that may throw.
abbrev pub and_then :
    {A B C : Type 0} → Outcome B × Runtime A → (B → Do A C) → Outcome C × Runtime A
and_then (ok b, r) f = f b r
and_then (thrown e, r) f = (thrown e, r)

module _ {A : Type 0} where
  -- `++generation_; changed_.notify_all();`
  unfoldable pub touch : Runtime A → Runtime A
  touch r = record r { generation = suc r.generation }

  unfoldable pub set_entry : ℕ → Entry → Runtime A → Runtime A
  set_entry id e r = record r { entries = insert id e r.entries }

  unfoldable pub erase_entry : ℕ → Runtime A → Runtime A
  erase_entry id r = record r { entries = erase id r.entries }

  abbrev pub box_or_new : Option (Mailbox A) → Mailbox A
  box_or_new none = Mailbox.empty
  box_or_new (some m) = m

  -- `*entry.box`; every client that was ever created has one.
  unfoldable pub box_of : ℕ → Runtime A → Mailbox A
  box_of id r = box_or_new (lookup id r.boxes)

  unfoldable pub set_box : ℕ → Mailbox A → Runtime A → Runtime A
  set_box id m r = record r { boxes = insert id m r.boxes }

  unfoldable pub set_store : ℕ → Buffers × Mailbox A → Runtime A → Runtime A
  set_store id (b, m) r = record r { buffers = b; boxes = insert id m r.boxes }
