-- ===== src/Examples/Workers.antt =====
-- The worker, on a runtime that one client watches.
use tdlua.Prelude.{ℕ, suc, ◌+◌, ◌≡◌, refl, true, Option, some, none, List, [], ◌∷◌, lookup, insert}
use tdlua.Receiver.State.{Runtime, Outcome, ok, new_entry, hook_failed, SinkCall, broadcast}
use tdlua.Receiver.Demand.{one_shot_count, demand_count}
use tdlua.Receiver.Worker.{claim, Surroundings, empty_handed, raised, run_round, run}
use tdlua.Receiver.Worker.Rounds.{Takes, Ends, claims, claim_effect, run_round-Ends, run_stops}
use tdlua.Examples.Failures.{healthy}

abbrev same : Runtime ℕ → Runtime ℕ
same r = r

abbrev quiet : Runtime ℕ → Outcome (Unit {0}) × Runtime ℕ
quiet r = (ok tt, r)

abbrev timed_out : Surroundings ℕ
timed_out = record {
  others = same;
  meanwhile = same;
  answer = empty_handed;
  now = 5;
  routing_now = 6;
  before = quiet;
  after = quiet;
  acknowledge = quiet;
  later = same;
}

-- The client also asks for a one-shot.
abbrev asking : Runtime ℕ
asking = record healthy {
  entries = (3, record (new_entry 1) { watch_demands = 1; one_shot_pending = true }) ∷ [];
}

claim_effect_example :
    Takes asking.entries ((claim asking).0.one_shot, (claim asking).1.entries)
    × (one_shot_count (claim asking).1 + claims (claim asking).0.one_shot ≡ one_shot_count asking)
    × ((claim asking).0.one_shot ≡ none → one_shot_count asking ≡ 0)
    × ((claim asking).1.receiving ≡ true)
    × ((claim asking).1.stats.receive_calls ≡ suc asking.stats.receive_calls)
claim_effect_example = claim_effect asking

run_round-Ends_example : Ends asking (claim asking).0.one_shot (run_round timed_out asking)
run_round-Ends_example = run_round-Ends timed_out asking

-- The source answers nothing once, and then raises an exception.
abbrev rounds : List (Surroundings ℕ)
rounds = timed_out ∷ record timed_out { answer = raised hook_failed } ∷ []

abbrev or_asking : Option (List SinkCall × Runtime ℕ) → Runtime ℕ
or_asking none = asking
or_asking (some (calls, r)) = r

run_stops_example : (or_asking (run rounds asking)).stop ≡ true
run_stops_example = run_stops rounds asking (broadcast ∷ []) (or_asking (run rounds asking)) ended
  where
    ended : run rounds asking ≡ some (broadcast ∷ [], or_asking (run rounds asking))
    ended = unfold run demand_count lookup insert in refl
