-- ===== src/Cleanup/Pins.antt =====
-- A send that begins and ends leaves no active send behind.
use tdlua.Prelude.{
  ℕ, suc, ◌≡◌, refl, ap, ◌∙◌, Bool, true, false, ◌&&◌, ◌||◌, Option, none, some, lookup,
  lookup-insert, arith, ==_refl, if_both, if◌then◌else◌,
}
use tdlua.Prelude.Int.{pos}
use tdlua.Prelude.Keys.{Sorted, insert-Sorted}
use tdlua.Identity.{contains}
use tdlua.Cleanup.{Record, Stats, Cleanup}
use tdlua.Cleanup.Ledger.{
  Reply, returns, raises, put, materialize, mark_close_sent, set_uncertain, refuse_send, admit_at,
  begin_send, conclude, unpinned, end_at, end_send,
}
use tdlua.Cleanup.Shut.{settle-Steady}

abbrev pinned : Record → Record
pinned r = record r { active = suc r.active }

abbrev pinned_in : Stats → Stats
pinned_in s = record s { active_sends = suc s.active_sends }

conclude-sends :
    (closing success : Bool) (r : Record) (s : Stats)
    → (conclude closing success (unpinned (pinned r, pinned_in s))).1.active_sends ≡ s.active_sends
unfolding materialize mark_close_sent set_uncertain
conclude-sends closing success r s = ground arith

-- The end of a send that has just begun.
end_send-pinned :
    (i : ℕ) (closing success : Bool) (r : Record) (l : Cleanup)
    → Sorted l.records
    → (end_send i closing success (put i (pinned r, pinned_in l.stats) l)).stats.active_sends
      ≡ l.stats.active_sends
unfolding end_send
end_send-pinned i closing success r l s =
    let l' = put i (pinned r, pinned_in l.stats) l in
    let p = conclude closing success (unpinned (pinned r, pinned_in l.stats)) in
    ap (λ o. (end_at i closing success o l').stats.active_sends)
      (lookup-insert i i (pinned r) l.records
        ∙ ap (λ b. if b then some (pinned r) else lookup i l.records) (==_refl i))
    ∙ (settle-Steady i (put i p l') (put i p l')
        (insert-Sorted i p.0 l'.records (insert-Sorted i (pinned r) l.records s)) (refl, refl)).1
    ∙ conclude-sends closing success r l.stats

-- What `beginSend` leaves: the counter as it was where it refuses, and where the send ends.
abbrev pub Pins : ℕ → Bool → Cleanup → Reply Bool × Cleanup → Type 0
Pins i closing l (returns true, l') =
    (success : Bool) → (end_send i closing success l').stats.active_sends ≡ l.stats.active_sends
Pins i closing l (returns false, l') = l' ≡ l
Pins i closing l (raises f, l') = l' ≡ l

pub begin_send-Pins :
    (i : ℕ) (closing : Bool) (l : Cleanup)
    → Sorted l.records
    → Pins i closing l (begin_send i closing l)
unfolding begin_send
begin_send-Pins i closing l s =
    if_both P l.failed (if_both P closing refl refl) (split (lookup i l.records))
  where
    P : Reply Bool × Cleanup → Type 0
    P x = Pins i closing l x

    refused : P (refuse_send i closing l)
    refused = if_both P (closing && contains l.history (pos i)) refl refl

    split : (o : Option Record) → P (admit_at i closing o l)
    split none = refused
    split (some r) =
        if_both P (r.terminal || r.notified) refused
          (λ success. end_send-pinned i closing success r l s)
