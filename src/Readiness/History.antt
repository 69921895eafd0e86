-- ===== src/Readiness/History.antt =====
-- The hub over whole histories: owners come and go, clients are bound and unbound, doorbells are
-- opened, rung and cleared.
use tdlua.Prelude.{
  ℕ, ◌≡◌, refl, ap, Bool, Option, none, some, List, [], ◌∷◌, Map, lookup, arith, if_both,
}
use tdlua.Wake.{
  WakeTarget, Written, Drained, drained, peer_closed, read_interrupted, read_would_block,
  read_failed, clear, drain, valid, fail,
}
use tdlua.Readiness.{
  Hub, Owner, init, attach_owner, detach_owner, wake_at, bind_client, enable_wake, set_wake,
  ring_owner, ring_at, ring_client, ring_each, broadcast, unbind_client, clear_wake, clear_at,
  clear_with,
}
use tdlua.Readiness.Binding.{
  IsConsistent, same_clients, init-IsConsistent, attach_at-IsConsistent, detach_at-IsConsistent,
  bind_at-IsConsistent, enable_at-IsConsistent, ring_at-IsConsistent, ring_client_at-IsConsistent,
  unbind_at-IsConsistent,
}

abbrev pub or_hub : Hub → Option Hub → Hub
or_hub h none = h
or_hub h (some h') = h'

abbrev or_target : WakeTarget → Option WakeTarget → WakeTarget
or_target t none = t
or_target t (some t') = t'

drain-valid :
    (answers : List Drained) (t : WakeTarget) → valid (or_target t (drain answers t)) ≡ valid t
unfolding drain fail valid
drain-valid [] t = refl
drain-valid (drained ∷ rest) t = drain-valid rest t
drain-valid (peer_closed ∷ rest) t = refl
drain-valid (read_interrupted ∷ rest) t = drain-valid rest t
drain-valid (read_would_block ∷ rest) t = refl
drain-valid (read_failed code ∷ rest) t = refl

clear-valid :
    (answers : List Drained) (t : WakeTarget) → valid (or_target t (clear answers t)) ≡ valid t
unfolding clear
clear-valid answers t = ground (arith, drain-valid answers t)

clear_with-IsConsistent :
    (o : ℕ) (w : Owner) (t : WakeTarget) (x : Option WakeTarget) (h : Hub)
    → lookup o h.owners ≡ some w
    → w.wake ≡ some t
    → valid (or_target t x) ≡ valid t
    → IsConsistent h
    → IsConsistent (or_hub h (clear_with o w h x))
unfolding set_wake
clear_with-IsConsistent o w t none h found e same v = v
clear_with-IsConsistent o w t (some t') h found e same v =
    same_clients h h.any_wake o w _ found (λ c. refl)
      (λ off. (off, ground (arith, v.quiet o off, ap wake_at found))) v

clear_at-IsConsistent :
    (o : ℕ) (answers : List Drained) (x : Option Owner) (t : Option WakeTarget) (h : Hub)
    → lookup o h.owners ≡ x
    → wake_at x ≡ t
    → IsConsistent h
    → IsConsistent (or_hub h (clear_at o answers x t h))
clear_at-IsConsistent o answers none t h found e v = v
clear_at-IsConsistent o answers (some w) none h found e v = v
clear_at-IsConsistent o answers (some w) (some t) h found e v =
    clear_with-IsConsistent o w t (clear answers t) h found e (clear-valid answers t) v

ring_each-IsConsistent :
    (answers : ℕ → ℕ → Written) (m : Map Owner) (h : Hub)
    → IsConsistent h
    → IsConsistent (ring_each answers m h)
unfolding ring_each
ring_each-IsConsistent answers [] h v = v
ring_each-IsConsistent answers ((o, w) ∷ rest) h v =
    ring_each-IsConsistent answers rest (ring_at o (answers o) (lookup o h.owners) h)
      (ring_at-IsConsistent o (answers o) (lookup o h.owners) h refl v)

-- The calls on the hub. A clear whose reads do not end leaves the hub as it was.
pub data Call : Type 0 where
  attaches detaches unbinds : ℕ → Call
  binds : ℕ → ℕ → Bool → Call
  enables : ℕ → WakeTarget → Call
  rings_owner rings_client : ℕ → (ℕ → Written) → Call
  broadcasts : (ℕ → ℕ → Written) → Call
  clears : ℕ → List Drained → Call

unfoldable pub call : Hub → Call → Hub
call h (attaches o) = attach_owner o h
call h (detaches o) = detach_owner o h
call h (unbinds c) = unbind_client c h
call h (binds o c room) = (bind_client o c room h).1
call h (enables o fresh) = (enable_wake o fresh h).1
call h (rings_owner o answers) = ring_owner o answers h
call h (rings_client c answers) = ring_client c answers h
call h (broadcasts answers) = broadcast answers h
call h (clears o answers) = or_hub h (clear_wake o answers h)

unfoldable pub call_all : Hub → List Call → Hub
unfolding call
call_all h [] = h
call_all h (c ∷ cs) = call_all (call h c) cs

call-IsConsistent : (h : Hub) (c : Call) → IsConsistent h → IsConsistent (call h c)
unfolding call attach_owner detach_owner unbind_client bind_client enable_wake ring_owner
    ring_client broadcast clear_wake
call-IsConsistent h (attaches o) v = attach_at-IsConsistent o (lookup o h.owners) h refl v
call-IsConsistent h (detaches o) v = detach_at-IsConsistent o (lookup o h.owners) h v
call-IsConsistent h (unbinds c) v = unbind_at-IsConsistent c (lookup c h.client_owner) h refl v
call-IsConsistent h (binds o c room) v = bind_at-IsConsistent o c room (lookup o h.owners) h refl v
call-IsConsistent h (enables o fresh) v =
    enable_at-IsConsistent o fresh (lookup o h.owners) h refl v
call-IsConsistent h (rings_owner o answers) v =
    if_both IsConsistent h.any_wake (ring_at-IsConsistent o answers (lookup o h.owners) h refl v) v
call-IsConsistent h (rings_client c answers) v =
    if_both IsConsistent h.any_wake
      (ring_client_at-IsConsistent answers (lookup c h.client_owner) h v) v
call-IsConsistent h (broadcasts answers) v =
    if_both IsConsistent h.any_wake (ring_each-IsConsistent answers h.owners h v) v
call-IsConsistent h (clears o answers) v =
    clear_at-IsConsistent o answers (lookup o h.owners) (wake_at (lookup o h.owners)) h refl refl v

run-IsConsistent : (h : Hub) (cs : List Call) → IsConsistent h → IsConsistent (call_all h cs)
unfolding call_all
run-IsConsistent h [] v = v
run-IsConsistent h (c ∷ cs) v = run-IsConsistent (call h c) cs (call-IsConsistent h c v)

-- After any calls on a new hub, each client is listed by exactly the owner that the client map
-- names, and while the flag that lets a doorbell skip the hub is clear, no owner has a valid
-- doorbell.
pub call_all-IsConsistent : (cs : List Call) → IsConsistent (call_all init cs)
call_all-IsConsistent cs = run-IsConsistent init cs init-IsConsistent
