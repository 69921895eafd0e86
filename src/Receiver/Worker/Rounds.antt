-- ===== src/Receiver/Worker/Rounds.antt =====
-- How a round of the worker ends, and how its loop does.
use tdlua.Prelude.{
  ℕ, suc, ◌+◌, ◌≡◌, refl, ap, subst, ◌∙◌, Bool, true, false, not, Option, none, some, List, [], ◌∷◌,
  ◌++◌, Map, lookup, lookup-insert, nonzero, arith, ==_refl, bit, sum_by, if◌then◌else◌, if_both,
  if_split,
}
use tdlua.Mailbox.{Failure, source, routing, is_failure}
use tdlua.Receiver.State.{Fault, Outcome, ok, thrown, Entry, Runtime, SinkCall, touch, set_entry}
use tdlua.Receiver.Demand.{demand_count, one_shot_count}
use tdlua.Receiver.Interest.{complete_one_shot, settle_one_shot}
use tdlua.Receiver.Failure.{IsBroken, fail-breaks}
use tdlua.Receiver.Publish.{publish}
use tdlua.Receiver.Worker.{
  Claim, claim, claim_one_shot, Received, empty_handed, received, raised, Surroundings, Turn, waits,
  stops, goes_on, breaks, is_over, failure_of, is_bad_alloc, settle, one_empty, broken_by,
  acknowledged, published_round, answered, run_round, run, prepend,
}

abbrev pub claims : Option ℕ → ℕ
claims none = 0
claims (some id) = 1

claim-pending :
    (es : Map Entry)
    → sum_by (λ p. bit p.1.one_shot_pending) (claim_one_shot es).1 + claims (claim_one_shot es).0
      ≡ sum_by (λ p. bit p.1.one_shot_pending) es
unfolding claim_one_shot
claim-pending [] = refl
claim-pending ((id, e) ∷ rest) = ground (arith, claim-pending rest)

claim-none :
    (es : Map Entry) → (claim_one_shot es).0 ≡ none → sum_by (λ p. bit p.1.one_shot_pending) es ≡ 0
unfolding claim_one_shot
claim-none [] e = refl
claim-none ((id, e) ∷ rest) h = ground (arith, claim-none rest)

failure_of-real :
    (stage : Failure) (e : Fault) → is_failure stage ≡ true → is_failure (failure_of stage e) ≡ true
failure_of-real stage e h = if_both (λ f. is_failure f ≡ true) (is_bad_alloc e) refl h

-- The client's one-shot receive is over.
abbrev pub not_flying : Option Entry → Bool
not_flying none = true
not_flying (some e) = not e.one_shot_in_flight

abbrev pub Done : {A : Type 0} → Option ℕ → Runtime A → Type 0
Done none r = r.receiving ≡ false
Done (some id) r = (r.receiving ≡ false) × (not_flying (lookup id r.entries) ≡ true)

-- No client of these waits for a one-shot.
abbrev pub NonePending : Map Entry → Type 0
NonePending es = sum_by (λ p. bit p.1.one_shot_pending) es ≡ 0

-- Which one-shot a scan of the registry takes, and what it makes of the registry: the one-shot of
-- the first entry that waits for one, whose two flags change and nothing else; or none.
abbrev pub Takes : Map Entry → Option ℕ × Map Entry → Type 0
Takes es (none, es') = (es' ≡ es) × NonePending es
Takes es (some id, es') =
    (before : Map Entry) × (e : Entry) × (after : Map Entry) × (es ≡ before ++ (id, e) ∷ after)
    × NonePending before
    × (e.one_shot_pending ≡ true)
    × (es'
        ≡ before ++ (id, record e { one_shot_pending = false; one_shot_in_flight = true }) ∷ after)

skipped-Takes :
    (id : ℕ) (e : Entry) (rest : Map Entry) (m : Option ℕ × Map Entry)
    → e.one_shot_pending ≡ false
    → Takes rest m
    → Takes ((id, e) ∷ rest) (m.0, (id, e) ∷ m.1)
skipped-Takes id e rest (none, es') idle (same, z) = (ap (λ r. (id, e) ∷ r) same, ground (arith, z))
skipped-Takes id e rest (some j, es') idle (before, f, after, split, z, p, left) = (
  (id, e) ∷ before,
  f,
  after,
  ap (λ r. (id, e) ∷ r) split,
  ground (arith, z),
  p,
  ap (λ r. (id, e) ∷ r) left,
)

claim_one_shot-Takes : (es : Map Entry) → Takes es (claim_one_shot es)
unfolding claim_one_shot
claim_one_shot-Takes [] = (refl, refl)
claim_one_shot-Takes ((id, e) ∷ rest) =
    if_split (Takes ((id, e) ∷ rest)) e.one_shot_pending
      (λ waiting. ([], e, rest, refl, refl, waiting, refl))
      (λ idle. skipped-Takes id e rest (claim_one_shot rest) idle (claim_one_shot-Takes rest))

module _ {A : Type 0} where
  -- A claim takes the one-shot of the first client in the registry that waits for one: it reports
  -- that client, whose one-shot is then in flight and no longer waits, and changes nothing else in
  -- the registry; it takes none, and leaves the registry as it is, where no client waits. Either
  -- way the worker then receives, and a call of the source is counted.
  pub claim_effect :
      (r : Runtime A)
      → Takes r.entries ((claim r).0.one_shot, (claim r).1.entries)
        × (one_shot_count (claim r).1 + claims (claim r).0.one_shot ≡ one_shot_count r)
        × ((claim r).0.one_shot ≡ none → one_shot_count r ≡ 0)
        × ((claim r).1.receiving ≡ true)
        × ((claim r).1.stats.receive_calls ≡ suc r.stats.receive_calls)
  unfolding claim one_shot_count
  claim_effect r =
      (claim_one_shot-Takes r.entries, claim-pending r.entries, claim-none r.entries, refl, refl)

  settle_one_shot-Done :
      (id : ℕ) (o : Option Entry) (r : Runtime A)
      → lookup id r.entries ≡ o
      → r.receiving ≡ false
      → Done (some id) (touch (settle_one_shot id o r))
  unfolding touch set_entry
  settle_one_shot-Done id none r found idle = (idle, ap not_flying found)
  settle_one_shot-Done id (some e) r found idle = (
    idle,
    ground (
      arith,
      ==_refl id,
      ap not_flying (lookup-insert id id (record e { one_shot_in_flight = false }) r.entries),
    ),
  )

  settle-Done : (claimed : Option ℕ) (r : Runtime A) → Done claimed (settle claimed r)
  unfolding settle complete_one_shot
  settle-Done none r = refl
  settle-Done (some id) r =
      settle_one_shot-Done id (lookup id r.entries) (record r { receiving = false }) refl refl

  -- What a turn leaves behind. `r` is the runtime that the worker finds, `claimed` its one-shot.
  abbrev pub Ends : Runtime A → Option ℕ → Turn × List SinkCall × Runtime A → Type 0
  Ends r claimed (waits, calls, r') = (r' ≡ r) × (demand_count r ≡ 0)
  Ends r claimed (stops, calls, r') = (r' ≡ r) × (r.stop ≡ true)
  Ends r claimed (goes_on, calls, r') = Done claimed r'
  Ends r claimed (breaks, calls, r') = IsBroken r'

  broken_by-Ends :
      (f : Failure) (r r' : Runtime A) (claimed : Option ℕ)
      → is_failure f ≡ true
      → Ends r claimed (broken_by f r')
  broken_by-Ends f r r' claimed real = (fail-breaks f r' real).0

  acknowledged-Ends :
      (s : Surroundings A) (r : Runtime A) (claimed : Option ℕ) (calls : List SinkCall)
      (m : Outcome (Unit {0}) × Runtime A)
      → Ends r claimed (acknowledged s claimed calls m)
  acknowledged-Ends s r claimed calls (ok u, r') = settle-Done claimed (s.later r')
  acknowledged-Ends s r claimed calls (thrown e, r') =
      broken_by-Ends (failure_of routing e) r r' claimed (failure_of-real routing e refl)

  published_round-Ends :
      (s : Surroundings A) (r : Runtime A) (c : Claim) (terminal : Bool)
      (m : List SinkCall × Outcome (Unit {0}) × Runtime A)
      → Ends r c.one_shot (published_round s c terminal m)
  published_round-Ends s r c terminal (calls, thrown e, r') =
      broken_by-Ends (failure_of routing e) r r' c.one_shot (failure_of-real routing e refl)
  published_round-Ends s r c terminal (calls, ok u, r') =
      acknowledged-Ends s r c.one_shot calls (if terminal then s.acknowledge r' else (ok tt, r'))

  answered-Ends :
      (s : Surroundings A) (r : Runtime A) (c : Claim) (answer : Received A) (r' : Runtime A)
      → Ends r c.one_shot (answered s c answer r')
  answered-Ends s r c empty_handed r' = settle-Done c.one_shot (one_empty r')
  answered-Ends s r c (raised e) r' =
      broken_by-Ends (failure_of source e) r r' c.one_shot (failure_of-real source e refl)
  answered-Ends s r c (received i) r' =
      published_round-Ends s r c i.terminal
        (publish s.before s.after s.routing_now c.interests (record i { acquired_at = s.now }) r')

  -- Whatever the source, the hooks and the other threads do, a round of the worker ends in one of
  -- four ways: it still waits, and there is no demand; it has seen the stop; it goes on, no longer
  -- receiving, and the one-shot that it claimed is over; or it has failed and the runtime is
  -- broken.
  pub run_round-Ends :
      (s : Surroundings A) (r : Runtime A)
      → Ends (s.others r) (claim (s.others r)).0.one_shot (run_round s r)
  unfolding run_round
  run_round-Ends s r =
      if_split (Ends found taken) found.stop (λ stop. (refl, stop))
        (λ on.
          if_split (Ends found taken) (not (nonzero (demand_count found)))
            (λ none_left. (refl, ground arith))
            (λ wanted.
              answered-Ends s found (claim found).0 s.answer (s.meanwhile (claim found).1)))
    where
      found : Runtime A
      found = s.others r

      taken : Option ℕ
      taken = (claim found).0.one_shot

  over-stop :
      (r : Runtime A) (claimed : Option ℕ) (t : Turn × List SinkCall × Runtime A)
      → Ends r claimed t
      → is_over t.0 ≡ true
      → t.2.stop ≡ true
  over-stop r claimed (waits, calls, r') e h = cc
  over-stop r claimed (stops, calls, r') e h = ap (λ (q : Runtime A). q.stop) e.0 ∙ e.1
  over-stop r claimed (goes_on, calls, r') e h = cc
  over-stop r claimed (breaks, calls, r') e h = e.stop

  abbrev Stopped : Option (List SinkCall × Runtime A) → Type 0
  Stopped none = Unit {0}
  Stopped (some (calls, r)) = r.stop ≡ true

  prepend-Stopped :
      (calls : List SinkCall) (o : Option (List SinkCall × Runtime A))
      → Stopped o
      → Stopped (prepend calls o)
  prepend-Stopped calls none h = tt
  prepend-Stopped calls (some (more, r)) h = h

  run-Stopped : (rounds : List (Surroundings A)) (r : Runtime A) → Stopped (run rounds r)
  unfolding run
  run-Stopped [] r = tt
  run-Stopped (s ∷ rest) r =
      if_split Stopped (is_over (run_round s r).0)
        (λ over. over-stop (s.others r) _ (run_round s r) (run_round-Ends s r) over)
        (λ on.
          prepend-Stopped (run_round s r).1 (run rest (run_round s r).2)
            (run-Stopped rest (run_round s r).2))

  -- If the worker's loop ends, then because a stop was requested or the runtime has failed: `stop_`
  -- is set in the state that it leaves.
  pub run_stops :
      (rounds : List (Surroundings A)) (r : Runtime A) (calls : List SinkCall) (r' : Runtime A)
      → run rounds r ≡ some (calls, r')
      → r'.stop ≡ true
  run_stops rounds r calls r' e = subst Stopped e (run-Stopped rounds r)
