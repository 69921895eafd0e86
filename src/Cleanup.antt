-- ===== src/Cleanup.antt =====
-- include/tdlua/common/failure_cleanup.h, class FailureCleanup: the ledger of the TDLib clients
-- that must be closed when the receiver fails. Its records carry the pointers of two intrusive
-- queues; a pointer is the id of a record, which `std::map` never moves. Each function is one
-- critical section under the ledger's mutex; an exception leaves the state that stands beside it.
pub mod Queues
pub mod Cores
pub mod Ledger
pub mod Counters
pub mod Laws
pub mod Invariant
pub mod Retirement
pub mod Change
pub mod Steps
pub mod Entry
pub mod Shut
pub mod Pins
pub mod Reached
pub mod Drained
pub mod Drain
use tdlua.Prelude.{ℕ, suc, Bool, true, false, Option, none, Map, []}
use tdlua.Identity.{History}
use tdlua.Identity

pub data Phase : Type 0 where
  idle running quiescent deadline error : Phase

pub data Work : Type 0 where
  no_work close notify : Work

pub record Record : Type 0 where
  pub materialized : Bool
  pub close_sent : Bool
  pub terminal : Bool
  pub uncertain : Bool
  pub notified : Bool
  pub close_uncertain : Bool
  pub busy : Bool
  pub active : ℕ
  pub work : Work
  pub previous : Option ℕ
  pub next : Option ℕ

abbrev pub new_record : Record
new_record = record {
  materialized = false;
  close_sent = false;
  terminal = false;
  uncertain = false;
  notified = false;
  close_uncertain = false;
  busy = false;
  active = 0;
  work = no_work;
  previous = none;
  next = none;
}

pub record Queue : Type 0 where
  pub head : Option ℕ
  pub tail : Option ℕ

pub record Stats : Type 0 where
  pub phase : Phase
  pub materialized : ℕ
  pub closes : ℕ
  pub terminals : ℕ
  pub abandoned : ℕ
  pub errors : ℕ
  pub unused : ℕ
  pub late : ℕ
  pub record_visits : ℕ
  pub accounting_errors : ℕ
  pub remaining : ℕ
  pub uncertain : ℕ
  pub records : ℕ
  pub reserved : ℕ
  pub terminal_records : ℕ
  pub active_sends : ℕ
  pub close_work : ℕ
  pub notification_work : ℕ

abbrev pub no_stats : Stats
no_stats = record {
  phase = idle;
  materialized = 0;
  closes = 0;
  terminals = 0;
  abandoned = 0;
  errors = 0;
  unused = 0;
  late = 0;
  record_visits = 0;
  accounting_errors = 0;
  remaining = 0;
  uncertain = 0;
  records = 0;
  reserved = 0;
  terminal_records = 0;
  active_sends = 0;
  close_work = 0;
  notification_work = 0;
}

pub record Cleanup : Type 0 where
  pub records : Map Record
  pub history : History
  pub closes : Queue
  pub notifies : Queue
  pub failed : Bool
  pub draining : Bool
  pub invariant_broken : Bool
  pub stats : Stats

abbrev pub no_queue : Queue
no_queue = record { head = none; tail = none }

unfoldable pub init : Cleanup
init = record {
  records = [];
  history = Identity.empty;
  closes = no_queue;
  notifies = no_queue;
  failed = false;
  draining = false;
  invariant_broken = false;
  stats = no_stats;
}
