-- ===== src/Examples/Stores.antt =====
-- Identity histories and ticket stores.
use tdlua.Prelude.Int.{ℤ, pos, negsuc, nonpositive}
use tdlua.Prelude.{◌≡◌, refl, ◌&&◌, not, List, [], ◌∷◌, lookup, insert}
use tdlua.Identity.{contains}
use tdlua.Identity.Membership.{insert_all, member, contains-insert_all}
use tdlua.Ticket.{
  acquire, refresh, retire, retire_active, destroy, report, set_pending, count_drop, generic,
  subscription, overflow, no_buffers, pending_of,
}
use tdlua.Ticket.Accounting.{
  act, Action, acquires, refreshes, retires, destroys, act_all, IsExact, act_all-IsExact,
}

-- 64 opens a second block; 7 is refused the second time, and 0 and -3 always.
abbrev some_ids : List ℤ
some_ids = pos 7 ∷ negsuc 2 ∷ pos 0 ∷ pos 64 ∷ pos 7 ∷ []

contains-insert_all_example :
    ((w : ℤ) → contains (insert_all some_ids) w ≡ (not (nonpositive w) && member w some_ids))
    × ((insert_all some_ids).identities ≡ 2)
contains-insert_all_example = contains-insert_all some_ids

-- The first ticket expires when it is asked at 9, the second overflows and the third is read.
abbrev some_actions : List Action
some_actions =
    acquires 1 5 generic 3
    ∷ acquires 2 50 subscription 3
    ∷ acquires 2 50 generic 4
    ∷ refreshes 0 9
    ∷ retires 1 overflow
    ∷ destroys 2
    ∷ acquires 9 5 generic 3
    ∷ []

act_all-IsExact_example : IsExact (act_all no_buffers some_actions)
act_all-IsExact_example = act_all-IsExact some_actions

pending_test : pending_of (act_all no_buffers some_actions) 3 ≡ 1
unfolding act_all act acquire refresh retire retire_active report set_pending count_drop destroy
    pending_of lookup insert no_buffers
pending_test = refl
