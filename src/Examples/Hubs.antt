-- ===== src/Examples/Hubs.antt =====
-- A hub with two owners.
use tdlua.Prelude.{◌≢◌, lookup, insert, ℕ, true, some, List, [], ◌∷◌}
use tdlua.Wake.{WakeTarget, closed_target, Written, wrote, drained, read_would_block}
use tdlua.Readiness.{init, owner_generation, attach_owner, detach_owner}
use tdlua.Readiness.Generations.{owner_generation-detach_owner}
use tdlua.Readiness.Binding.{IsConsistent}
use tdlua.Readiness.History.{
  Call, attaches, detaches, binds, unbinds, enables, rings_owner, rings_client, broadcasts, clears,
  call, call_all, call_all-IsConsistent,
}

abbrev bell : WakeTarget
bell = record closed_target { read_fd = some 5; write_fd = some 5; reliable = true }

abbrev writes_all : ℕ → Written
writes_all n = wrote

-- Client 7 has a doorbell when it is rung; client 8 is bound twice, then unbound.
abbrev calls : List Call
calls =
    attaches 1
    ∷ attaches 2
    ∷ binds 1 7 true
    ∷ binds 2 8 true
    ∷ binds 1 8 true
    ∷ enables 1 bell
    ∷ rings_client 7 writes_all
    ∷ rings_owner 2 writes_all
    ∷ broadcasts (λ o. writes_all)
    ∷ clears 1 (drained ∷ read_would_block ∷ [])
    ∷ unbinds 8
    ∷ detaches 1
    ∷ []

call_all-IsConsistent_example : IsConsistent (call_all init calls)
call_all-IsConsistent_example = call_all-IsConsistent calls

abbrev attached : List Call
attached = attaches 1 ∷ []

abbrev again : List Call
again = attaches 2 ∷ attaches 1 ∷ []

owner_generation-detach_owner_example :
    owner_generation 1 (call_all (detach_owner 1 (call_all init attached)) again)
    ≢ owner_generation 1 (call_all init attached)
owner_generation-detach_owner_example = owner_generation-detach_owner attached again 1 known
  where
    known : owner_generation 1 (call_all init attached) ≢ 0
    known = unfold owner_generation call_all call attach_owner init lookup insert in λ e. cc
