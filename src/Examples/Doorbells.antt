-- ===== src/Examples/Doorbells.antt =====
-- Doorbells.
use tdlua.Prelude.{
  ℕ, zero, suc, ◌≡◌, ◌<◌, refl, ◌⊎◌, ◌&&◌, not, true, false, none, some, [], ◌∷◌, if◌then◌else◌,
}
use tdlua.Wake.{
  WakeTarget, closed_target, valid, is_reliable, Written, wrote, write_interrupted, attempt, ring,
}
use tdlua.Wake.Open.{Pair, PosixAnswers, WindowsAnswers, open_posix, open_windows}
use tdlua.Wake.Descriptors.{IsAccounted, open_posix-IsAccounted, open_windows-IsAccounted}
use tdlua.Wake.Coalescing.{ring_effect, ring_all, ring_all-once}
use tdlua.Wake.Parking.{
  System, start, parked, Reach, here, next, publish, begin, exhaust, store, park, no_lost_wakeup,
}

-- No eventfd; the socket pair cannot be configured; the pipe can.
abbrev posix_pair : Pair
posix_pair = record {
  read_end = 3;
  write_end = 4;
  read_configured = true;
  write_configured = false;
}

abbrev posix : PosixAnswers
posix = record {
  has_eventfd = true;
  eventfd = none;
  eventfd_code = 24;
  socketpair = some posix_pair;
  pipe = some (record posix_pair { write_configured = true });
  last_code = 22;
}

open_posix-IsAccounted_example : IsAccounted (open_posix posix)
open_posix-IsAccounted_example = open_posix-IsAccounted posix refl refl

-- The accepted socket cannot be configured.
abbrev windows : WindowsAnswers
windows = record {
  winsock = true;
  winsock_code = 0;
  listener = some 8;
  listening = true;
  writer = some 9;
  connected = true;
  reader = some 10;
  configured_both = false;
  code = 22;
}

open_windows-IsAccounted_example : IsAccounted (open_windows windows)
open_windows-IsAccounted_example = open_windows-IsAccounted windows refl

abbrev bell : WakeTarget
bell = record closed_target { read_fd = some 5; write_fd = some 5; reliable = true }

abbrev second_try : ℕ → Written
second_try zero = write_interrupted
second_try (suc n) = wrote

ring_effect_example :
    ((ring second_try bell).rings ≡ suc bell.rings)
    × ((ring second_try bell).writes
        ≡ (if valid bell && not bell.asserted then suc bell.writes else bell.writes))
    × (valid bell ≡ true
        → ((ring second_try bell).asserted ≡ true) ⊎ (is_reliable (ring second_try bell) ≡ false))
ring_effect_example = ring_effect second_try bell

ring_all-once_example :
    ((ring_all (second_try ∷ second_try ∷ second_try ∷ []) bell).writes ≡ suc bell.writes)
    × ((ring_all (second_try ∷ second_try ∷ second_try ∷ []) bell).asserted ≡ true)
unfolding ring_all valid closed_target ring attempt
ring_all-once_example = ring_all-once second_try (second_try ∷ second_try ∷ []) bell refl refl refl

-- The owner parks, and a producer publishes before it comes to the exchange of the flag.
abbrev late_work : System
late_work = record start { work = true; posted = 1; owner = parked }

late : Reach late_work
unfolding start
late =
    next
      (next (next (next (next here (begin refl)) (exhaust refl refl)) (store refl))
        (park refl refl))
      publish

no_lost_wakeup_example :
    (0 < late_work.readable) ⊎ ((0 < late_work.writing) ⊎ (0 < late_work.posted))
unfolding start
no_lost_wakeup_example = no_lost_wakeup late refl refl refl
