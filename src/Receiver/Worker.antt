-- ===== src/Receiver/Worker.antt =====
-- `run`: the worker's loop. A round is what the worker does between two tests of `stop_`; what the
-- source, the hooks and the other threads do in it is an argument.
pub mod Rounds
use tdlua.Prelude.{
  ℕ, suc, Bool, true, false, ◌||◌, not, Option, none, some, List, [], ◌∷◌, ◌++◌, Map, nonzero,
  if◌then◌else◌,
}
use tdlua.Mailbox.{Envelope, Failure, source, routing, out_of_memory}
use tdlua.Receiver.State.{
  Fault, out_of_heap, Outcome, ok, thrown, Entry, Counters, Runtime, Do, SinkCall,
}
use tdlua.Receiver.Demand.{demand_count, has_continuous_demand, only_watch_demand}
use tdlua.Receiver.Interest.{complete_one_shot}
use tdlua.Receiver.Lifecycle.{fail}
use tdlua.Receiver.Publish.{publish}

-- What a round takes from the critical section at its start.
pub record Claim : Type 0 where
  pub timeout : ℕ
  pub interests : Map (Unit {0})
  pub one_shot : Option ℕ
  pub observed : ℕ

-- `generic_interests_at_receive_start`
unfoldable pub interested_clients : Map Entry → Map (Unit {0})
interested_clients [] = []
interested_clients ((id, e) ∷ rest) =
    let more = interested_clients rest in
    if nonzero e.consumer_interests then (id, tt) ∷ more else more

abbrev pub in_flight : Entry → Entry
in_flight e = record e { one_shot_pending = false; one_shot_in_flight = true }

-- The first client that has asked for a one-shot receive.
unfoldable pub claim_one_shot : Map Entry → Option ℕ × Map Entry
claim_one_shot [] = (none, [])
claim_one_shot ((id, e) ∷ rest) =
    let (claimed, rest') = claim_one_shot rest in
    if e.one_shot_pending then (some id, (id, in_flight e) ∷ rest) else (claimed, (id, e) ∷ rest')

-- The answer of `source_->receive`.
pub data Received (A : Type 0) : Type 0 where
  empty_handed : Received A
  received : Envelope A → Received A
  raised : Fault → Received A

-- `others` act while the worker waits for demand, `meanwhile` while it is in the source; `before`
-- and `after` are the hooks; `acknowledge` is `terminalPublished`; `later` is what others do before
-- the last critical section. The set of interests is allocated without a failure.
pub record Surroundings (A : Type 0) : Type 0 where
  pub others : Runtime A → Runtime A
  pub meanwhile : Runtime A → Runtime A
  pub answer : Received A
  pub now : ℕ
  pub routing_now : ℕ
  pub before : Do A (Unit {0})
  pub after : Do A (Unit {0})
  pub acknowledge : Do A (Unit {0})
  pub later : Runtime A → Runtime A

-- How a round ends: the worker still waits for demand, has seen `stop_`, goes on, or has failed.
pub data Turn : Type 0 where
  waits stops goes_on breaks : Turn

abbrev pub is_over : Turn → Bool
is_over waits = false
is_over stops = true
is_over goes_on = false
is_over breaks = true

-- The handler of an exception.
abbrev pub is_bad_alloc : Fault → Bool
is_bad_alloc out_of_heap = true
is_bad_alloc _ = false

abbrev pub failure_of : Failure → Fault → Failure
failure_of stage fault = if is_bad_alloc fault then out_of_memory else stage

module _ {A : Type 0} where
  abbrev pub counted_call : Runtime A → Counters → Counters
  counted_call r c = record c {
    receive_calls = suc c.receive_calls;
    watch_receive_calls =
        if only_watch_demand r then suc c.watch_receive_calls else c.watch_receive_calls;
  }

  unfoldable pub claim : Runtime A → Claim × Runtime A
  unfolding claim_one_shot interested_clients
  claim r =
      let (claimed, entries') = claim_one_shot r.entries in
      let r' = record r { entries = entries' } in
      (
        record {
          timeout = if has_continuous_demand r then r.timeout else 0;
          interests = interested_clients r.entries;
          one_shot = claimed;
          observed = r.generation;
        },
        record r' { receiving = true; stats = counted_call r' r.stats },
      )

  abbrev pub complete : Option ℕ → Runtime A → Runtime A
  complete none r = r
  complete (some id) r = complete_one_shot id r

  unfoldable pub settle : Option ℕ → Runtime A → Runtime A
  settle claimed r = complete claimed (record r { receiving = false })

  abbrev pub one_empty : Runtime A → Runtime A
  one_empty r = record r {
    stats = record r.stats { empty_receive_calls = suc r.stats.empty_receive_calls };
  }

  abbrev pub broken_by : Failure → Runtime A → Turn × List SinkCall × Runtime A
  broken_by f r = let (calls, r') = fail f r in (breaks, calls, r')

  -- The calls before those of a turn.
  abbrev pub also :
      List SinkCall → Turn × List SinkCall × Runtime A → Turn × List SinkCall × Runtime A
  also calls (turn, more, r) = (turn, calls ++ more, r)

  abbrev pub acknowledged :
      Surroundings A
      → Option ℕ
      → List SinkCall
      → Outcome (Unit {0}) × Runtime A
      → Turn × List SinkCall × Runtime A
  acknowledged s claimed calls (ok u, r) = (goes_on, calls, settle claimed (s.later r))
  acknowledged s claimed calls (thrown e, r) = also calls (broken_by (failure_of routing e) r)

  abbrev pub published_round :
      Surroundings A
      → Claim
      → Bool
      → List SinkCall × Outcome (Unit {0}) × Runtime A
      → Turn × List SinkCall × Runtime A
  published_round s c terminal (calls, thrown e, r) =
      also calls (broken_by (failure_of routing e) r)
  published_round s c terminal (calls, ok u, r) =
      acknowledged s c.one_shot calls (if terminal then s.acknowledge r else (ok tt, r))

  abbrev pub answered :
      Surroundings A → Claim → Received A → Runtime A → Turn × List SinkCall × Runtime A
  answered s c empty_handed r = (goes_on, [], settle c.one_shot (one_empty r))
  answered s c (raised e) r = broken_by (failure_of source e) r
  answered s c (received i) r =
      published_round s c i.terminal
        (publish s.before s.after s.routing_now c.interests (record i { acquired_at = s.now }) r)

  unfoldable pub run_round : Surroundings A → Runtime A → Turn × List SinkCall × Runtime A
  unfolding claim settle fail publish complete_one_shot
  run_round s r =
      let r₁ = s.others r in
      if r₁.stop
      then (stops, [], r₁)
      else if not (nonzero (demand_count r₁))
      then (waits, [], r₁)
      else (let (c, r₂) = claim r₁ in answered s c s.answer (s.meanwhile r₂))

  abbrev pub prepend :
      List SinkCall → Option (List SinkCall × Runtime A) → Option (List SinkCall × Runtime A)
  prepend calls none = none
  prepend calls (some (more, r)) = some (calls ++ more, r)

  -- `none` when the rounds run out: the worker still runs.
  unfoldable pub run : List (Surroundings A) → Runtime A → Option (List SinkCall × Runtime A)
  unfolding run_round
  run [] r = none
  run (s ∷ rest) r =
      let (turn, calls, r') = run_round s r in
      let later = run rest r' in if is_over turn then some (calls, r') else prepend calls later
