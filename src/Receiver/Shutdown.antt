-- ===== src/Receiver/Shutdown.antt =====
-- The worker's thread over the life of the receiver, and `stopAndJoin`.
use tdlua.Prelude.{
  ℕ, ◌≡◌, refl, sym, subst, Bool, true, false, ◌&&◌, ◌||◌, not, List, [], ◌∷◌, Map, arith,
}
use tdlua.Mailbox.{Failure}
use tdlua.Receiver.State.{
  told, broadcast, and_then, State, stopped, running, stopping, broken, Entry, Runtime, Outcome, ok,
  thrown, SinkCall, touch, set_entry, erase_entry, set_box,
}
use tdlua.Receiver.Demand.{is_running, is_stopping, start_locked, drop_tokens, clear_demand}
use tdlua.Receiver.Interest.{
  Means, has_thread, acquire_driver, acquire_watch, release_driver, release_watch, request_one_shot,
}
use tdlua.Receiver.Lifecycle.{
  Environment, cleanup_terminal, end_box, accumulate_retired, retire_entry, request_stop, fail,
  fail_boxes, break_down, count_failure, reap, reap_joined, wait_for_join, stop_and_join,
}
use tdlua.Receiver.Leases.History.{
  Event, acquires_driver, acquires_watch, requests_one_shot, releases_driver, releases_watch, ends,
  stops, fails, happen, happen_all,
}

-- There is a thread while the receiver runs or stops, and none while it is stopped; after a failure
-- there may be one.
abbrev pub matches_thread : State → Bool → Bool
matches_thread stopped worker = not worker
matches_thread running worker = worker
matches_thread stopping worker = worker
matches_thread broken worker = true

module _ {A : Type 0} where
  -- The thread is as the state says, and nobody is joining it.
  abbrev pub IsThreaded : Runtime A → Type 0
  IsThreaded r = (matches_thread r.state r.worker && not r.joining) ≡ true

  start_locked-IsThreaded :
      (threads : Bool) (r : Runtime A) → IsThreaded r → IsThreaded (start_locked threads r).1
  unfolding start_locked
  start_locked-IsThreaded threads r v = ground arith

  acquire_driver-IsThreaded :
      (means : Means) (id : ℕ) (r : Runtime A)
      → IsThreaded r
      → IsThreaded (acquire_driver means id r).1
  unfolding acquire_driver touch set_entry
  acquire_driver-IsThreaded means id r v =
      ground (arith, start_locked-IsThreaded (has_thread means) r v)

  acquire_watch-IsThreaded :
      (means : Means) (id : ℕ) (r : Runtime A)
      → IsThreaded r
      → IsThreaded (acquire_watch means id r).1
  unfolding acquire_watch touch set_entry
  acquire_watch-IsThreaded means id r v =
      ground (arith, start_locked-IsThreaded (has_thread means) r v)

  request_one_shot-IsThreaded :
      (means : Means) (id : ℕ) (r : Runtime A)
      → IsThreaded r
      → IsThreaded (request_one_shot means id r).1
  unfolding request_one_shot touch set_entry
  request_one_shot-IsThreaded means id r v =
      ground (arith, start_locked-IsThreaded (has_thread means) r v)

  release_driver-IsThreaded :
      (token : ℕ) (r : Runtime A) → IsThreaded r → IsThreaded (release_driver token r)
  unfolding release_driver touch set_entry
  release_driver-IsThreaded token r v = ground arith

  release_watch-IsThreaded :
      (token : ℕ) (r : Runtime A) → IsThreaded r → IsThreaded (release_watch token r)
  unfolding release_watch touch set_entry
  release_watch-IsThreaded token r v = ground arith

  cleanup_terminal-IsThreaded :
      (id : ℕ) (r : Runtime A) → IsThreaded r → IsThreaded (cleanup_terminal id r)
  unfolding cleanup_terminal clear_demand drop_tokens end_box retire_entry accumulate_retired
      erase_entry set_box touch set_entry
  cleanup_terminal-IsThreaded id r v = ground arith

  request_stop-IsThreaded : (r : Runtime A) → IsThreaded r → IsThreaded (request_stop r)
  unfolding request_stop
  request_stop-IsThreaded r v = ground arith

  fail_boxes-IsThreaded :
      (f : Failure) (es : Map Entry) (r : Runtime A) → IsThreaded r → IsThreaded (fail_boxes f es r)
  unfolding fail_boxes set_box
  fail_boxes-IsThreaded f [] r v = v
  fail_boxes-IsThreaded f ((id, e) ∷ rest) r v = fail_boxes-IsThreaded f rest (set_box id _ r) v

  fail-IsThreaded : (f : Failure) (r : Runtime A) → IsThreaded r → IsThreaded (fail f r).1
  unfolding fail
  fail-IsThreaded f r v =
      fail_boxes-IsThreaded (count_failure f r).failure (count_failure f r).entries
        (break_down (count_failure f r)) (ground arith)

  happen-IsThreaded : (r : Runtime A) (e : Event) → IsThreaded r → IsThreaded (happen r e)
  unfolding happen
  happen-IsThreaded r (acquires_driver means id) v = acquire_driver-IsThreaded means id r v
  happen-IsThreaded r (acquires_watch means id) v = acquire_watch-IsThreaded means id r v
  happen-IsThreaded r (requests_one_shot means id) v = request_one_shot-IsThreaded means id r v
  happen-IsThreaded r (releases_driver token) v = release_driver-IsThreaded token r v
  happen-IsThreaded r (releases_watch token) v = release_watch-IsThreaded token r v
  happen-IsThreaded r (ends id) v = cleanup_terminal-IsThreaded id r v
  happen-IsThreaded r stops v = request_stop-IsThreaded r v
  happen-IsThreaded r (fails f) v = fail-IsThreaded f r v

  happen_all-IsThreaded :
      (r : Runtime A) (es : List Event) → IsThreaded r → IsThreaded (happen_all r es)
  unfolding happen_all
  happen_all-IsThreaded r [] v = v
  happen_all-IsThreaded r (e ∷ es) v =
      happen_all-IsThreaded (happen r e) es (happen-IsThreaded r e v)

  -- The receiver rests: no thread, nobody joining, and it neither runs nor stops.
  abbrev pub Rests : Runtime A → Type 0
  Rests r =
      (r.worker ≡ false)
      × (r.joining ≡ false)
      × ((is_running r.state || is_stopping r.state) ≡ false)

  reap_joined-Rests :
      (env : Environment A) (r : Runtime A)
      → env.join_throws ≡ false
      → is_running r.state ≡ false
      → IsThreaded r
      → ((reap_joined env r).0 ≡ ok tt) × Rests (reap_joined env r).1
  reap_joined-Rests env r quiet idle v = (ground arith, (ground arith, ground arith, ground arith))

  unfoldable Rested : Outcome (Unit {0}) × Runtime A → Type 0
  Rested m = (m.0 ≡ ok tt) × Rests m.1

  reap-Rested :
      (env : Environment A) (r : Runtime A)
      → env.join_throws ≡ false
      → is_running r.state ≡ false
      → IsThreaded r
      → Rested (reap false env r)
  unfolding reap Rested
  reap-Rested env r quiet idle v =
      subst (λ q. Rested (reap_joined env q)) (sym waited) (reap_joined-Rests env r quiet idle v)
    where
      waited : wait_for_join env r ≡ r
      waited = ground arith

  told-Rested :
      (calls : List SinkCall) (o : Outcome (Unit {0})) (r : Runtime A)
      → Rested (o, r)
      → let m = and_then {B = Unit {0}} {C = List SinkCall} (o, r) (λ _ r'. (ok calls, r')) in
        (m.0 ≡ ok calls) × Rests m.1
  unfolding Rested
  told-Rested calls (ok u) r (e, v) = (refl, v)
  told-Rested calls (thrown f) r (e, v) = cc

  -- Whatever leases, one-shots, ends of clients, stops and failures there were, from a receiver whose
  -- thread is as its state says and that nobody is joining: where `join` does not throw,
  -- `stopAndJoin` on any thread but the worker's returns and tells the sink of it, and in the state
  -- that it leaves there is no thread, nobody is joining, and the receiver is stopped or has failed.
  pub stop_and_join-Rests :
      (env : Environment A) (r : Runtime A) (es : List Event)
      → env.join_throws ≡ false
      → IsThreaded r
      → let m = stop_and_join false env (happen_all r es) in
        (m.0 ≡ ok (told (happen_all r es).sink (broadcast ∷ []))) × Rests m.1
  unfolding stop_and_join
  stop_and_join-Rests env r es quiet v =
      let q = happen_all r es in
      let asked : is_running (request_stop q).state ≡ false = unfold request_stop in ground arith in
      told-Rested (told q.sink (broadcast ∷ [])) (reap false env (request_stop q)).0
        (reap false env (request_stop q)).1
        (reap-Rested env (request_stop q) quiet asked
          (request_stop-IsThreaded q (happen_all-IsThreaded r es v)))
