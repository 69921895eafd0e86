-- ===== src/Ticket.antt =====
-- include/tdlua/common/receiver.h, class GenericTicket: the capacity and lifetime ticket of a
-- buffered generic envelope. Tickets are shared between a mailbox, the receiver's fifo of weak
-- pointers and the consumer, so they live in a store and are named by their address there.
-- A time is a number of clock ticks; 0 is the default time_point.
pub mod Accounting
pub mod Cover
pub mod Upkeep
use tdlua.Prelude.{
  ℕ, zero, suc, ◌+◌, Bool, true, false, Option, none, some, List, [], ◌∷◌, ◌++◌, Map, lookup,
  insert, get_elem?, set, length, leb, decrement, if◌then◌else◌,
}

pub data DropReason : Type 0 where
  no_drop overflow expired : DropReason

-- Which of the two GenericBufferMetrics a ticket reports to.
pub data Channel : Type 0 where
  generic subscription : Channel

pub record Metrics : Type 0 where
  pub dropped_overflow : ℕ
  pub dropped_expired : ℕ

-- `client` names the shared counter `pending_`, one for each registry entry ever created. `alive`
-- is false once the last shared_ptr is gone, when a weak pointer no longer locks.
pub record Ticket : Type 0 where
  pub acquired : ℕ
  pub expires : ℕ
  pub channel : Channel
  pub client : ℕ
  pub active : Bool
  pub reason : DropReason
  pub alive : Bool

-- The tickets by address, and the atomics that they share.
pub record Buffers : Type 0 where
  pub tickets : List Ticket
  pub pending : Map ℕ
  pub generic_metrics : Metrics
  pub subscription_metrics : Metrics

abbrev pub no_metrics : Metrics
no_metrics = record { dropped_overflow = 0; dropped_expired = 0 }

unfoldable pub no_buffers : Buffers
no_buffers = record {
  tickets = [];
  pending = [];
  generic_metrics = no_metrics;
  subscription_metrics = no_metrics;
}

abbrev pub count_of : Option ℕ → ℕ
count_of none = 0
count_of (some n) = n

-- `pending_->load()`
unfoldable pub pending_of : Buffers → ℕ → ℕ
pending_of b client = count_of (lookup client b.pending)

-- `metrics_->dropped_...fetch_add(1)`
unfoldable pub count_drop : DropReason → Metrics → Metrics
count_drop no_drop m = m
count_drop overflow m = record m { dropped_overflow = suc m.dropped_overflow }
count_drop expired m = record m { dropped_expired = suc m.dropped_expired }

unfoldable pub report : Channel → DropReason → Buffers → Buffers
unfolding count_drop
report generic r b = record b { generic_metrics = count_drop r b.generic_metrics }
report subscription r b = record b { subscription_metrics = count_drop r b.subscription_metrics }

unfoldable pub set_pending : ℕ → ℕ → Buffers → Buffers
set_pending client n b = record b { pending = insert client n b.pending }

abbrev pub fresh : ℕ → ℕ → Channel → ℕ → Ticket
fresh acquired ttl channel client = record {
  acquired = acquired;
  expires = acquired + ttl;
  channel = channel;
  client = client;
  active = true;
  reason = no_drop;
  alive = true;
}

-- The constructor: the new ticket stands at the address `length b.tickets`.
unfoldable pub acquire : ℕ → ℕ → Channel → ℕ → Buffers → Buffers
unfolding set_pending pending_of
acquire acquired ttl channel client b = record (set_pending client (suc (pending_of b client)) b) {
  tickets = b.tickets ++ fresh acquired ttl channel client ∷ [];
}

-- `retire` of the ticket `t` at `i`, after the compare_exchange has succeeded.
unfoldable pub retire_active : ℕ → Ticket → DropReason → Buffers → Buffers
unfolding report set_pending pending_of
retire_active i t r b =
    report t.channel r (record (set_pending t.client (decrement (pending_of b t.client)) b) {
      tickets = set b.tickets i (record t { active = false; reason = r });
    })

abbrev pub retire_found : ℕ → Option Ticket → DropReason → Buffers → Buffers
retire_found i none r b = b
retire_found i (some t) r b = if t.active then retire_active i t r b else b

unfoldable pub retire : ℕ → DropReason → Buffers → Buffers
unfolding retire_active
retire i r b = retire_found i (get_elem? b.tickets i) r b

abbrev pub active_at : Option Ticket → Bool
active_at none = false
active_at (some t) = t.active

-- `active(now)`: an expired ticket is retired by being asked. The answer is read from the new
-- store.
abbrev pub refresh_found : ℕ → Option Ticket → ℕ → Buffers → Buffers
refresh_found i none now b = b
refresh_found i (some t) now b =
    if t.active then (if leb t.expires now then retire i expired b else b) else b

unfoldable pub refresh : ℕ → ℕ → Buffers → Buffers
unfolding retire
refresh i now b = refresh_found i (get_elem? b.tickets i) now b

unfoldable pub is_active : ℕ → Buffers → Bool
is_active i b = active_at (get_elem? b.tickets i)

abbrev pub alive_at : Option Ticket → Bool
alive_at none = false
alive_at (some t) = t.alive

-- `weak_ptr::lock`
unfoldable pub is_alive : ℕ → Buffers → Bool
is_alive i b = alive_at (get_elem? b.tickets i)

abbrev pub bury_found : ℕ → Option Ticket → Buffers → Buffers
bury_found i none b = b
bury_found i (some t) b = record b { tickets = set b.tickets i (record t { alive = false }) }

-- The destructor, when the last shared_ptr goes.
unfoldable pub destroy : ℕ → Buffers → Buffers
unfolding retire
destroy i b = let b' = retire i no_drop b in bury_found i (get_elem? b'.tickets i) b'
