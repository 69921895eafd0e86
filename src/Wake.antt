-- ===== src/Wake.antt =====
-- include/tdlua/common/wake.h, class WakeTarget: the doorbell of one owner, one waitable kernel
-- object that says only that work may exist. The answers of the system calls are arguments, in the
-- order of the calls; the object itself is outside the model but in Wake/Parking, where producers
-- and the owner run interleaved.
pub mod Open
pub mod Descriptors
pub mod Coalescing
pub mod Parking
use tdlua.Prelude.{
  ℕ, zero, suc, ◌+◌, Bool, true, false, ◌&&◌, ◌||◌, ◌==◌, not, Option, none, some, List, [], ◌∷◌,
  if◌then◌else◌,
}
use tdlua.Prelude.Int.{ℤ, pos, negsuc}

pub record WakeTarget : Type 0 where
  pub read_fd : Option ℕ
  pub write_fd : Option ℕ
  pub asserted : Bool
  pub reliable : Bool
  pub error : ℕ
  pub rings : ℕ
  pub writes : ℕ

-- The members' initial values.
unfoldable pub closed_target : WakeTarget
closed_target = record {
  read_fd = none;
  write_fd = none;
  asserted = false;
  reliable = false;
  error = 0;
  rings = 0;
  writes = 0;
}

-- Named codes: EINTR, and EPIPE (WSAECONNRESET on Windows).
abbrev pub interrupted_code : ℕ
interrupted_code = 4

abbrev pub broken_pipe_code : ℕ
broken_pipe_code = 32

-- The answer of one non-blocking write, and of one read.
pub data Written : Type 0 where
  wrote write_interrupted write_would_block : Written
  write_failed : ℕ → Written

pub data Drained : Type 0 where
  drained peer_closed read_interrupted read_would_block : Drained
  read_failed : ℕ → Drained

abbrev pub is_open : Option ℕ → Bool
is_open none = false
is_open (some fd) = true

-- The POSIX build tests the read end; the Windows build opens and closes both ends together.
unfoldable pub valid : WakeTarget → Bool
valid w = is_open w.read_fd

unfoldable pub is_reliable : WakeTarget → Bool
unfolding valid
is_reliable w = valid w && w.reliable

unfoldable pub fail : ℕ → WakeTarget → WakeTarget
fail code w = record w { error = code; reliable = false; asserted = false }

-- The attempts of `ring`: a write that would block has found the object asserted already.
unfoldable pub attempt : ℕ → (ℕ → Written) → ℕ → WakeTarget → WakeTarget
unfolding fail
attempt zero answers i w = fail interrupted_code w
attempt (suc n) answers i w = elim (answers i) [
  | wrote ↦ w
  | write_interrupted ↦ attempt n answers (suc i) w
  | write_would_block ↦ w
  | write_failed code ↦ fail code w
]

unfoldable pub ring : (ℕ → Written) → WakeTarget → WakeTarget
unfolding valid attempt
ring answers w =
    let counted = record w { rings = suc w.rings } in
    if not (valid w)
    then counted
    else if w.asserted
    then counted
    else attempt 8 answers 0 (record counted { asserted = true; writes = suc w.writes })

-- The reads of `clear`; `none` while they still succeed.
unfoldable pub drain : List Drained → WakeTarget → Option WakeTarget
unfolding fail
drain [] w = none
drain (drained ∷ rest) w = drain rest w
drain (peer_closed ∷ rest) w = some (fail broken_pipe_code w)
drain (read_interrupted ∷ rest) w = drain rest w
drain (read_would_block ∷ rest) w = some (record w { asserted = false })
drain (read_failed code ∷ rest) w = some (fail code w)

unfoldable pub clear : List Drained → WakeTarget → Option WakeTarget
unfolding drain valid
clear answers w = if not (valid w) then some (record w { asserted = false }) else drain answers w

-- The answer of `poll` or `WSAPoll`: interrupted, failed, timed out, or ready with or without one
-- of the events asked for.
pub data Polled : Type 0 where
  poll_interrupted poll_failed poll_timeout poll_ready poll_other : Polled

abbrev pub poll_status : Polled → ℤ
poll_status poll_interrupted = pos 0
poll_status poll_failed = negsuc 0
poll_status poll_timeout = pos 0
poll_status poll_ready = pos 1
poll_status poll_other = pos 1

unfoldable pub wait : Polled → WakeTarget → ℤ
unfolding is_reliable valid
wait answer w = if not (valid w) || not (is_reliable w) then negsuc 0 else poll_status answer

-- `close` of the descriptors, each once: an eventfd is both ends.
abbrev pub closed_by : Option ℕ → Option ℕ → List ℕ
closed_by none none = []
closed_by none (some w) = w ∷ []
closed_by (some r) none = r ∷ []
closed_by (some r) (some w) = if w == r then r ∷ [] else w ∷ r ∷ []

unfoldable pub close : WakeTarget → WakeTarget × List ℕ
close w = (record w { read_fd = none; write_fd = none }, closed_by w.read_fd w.write_fd)
