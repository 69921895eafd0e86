-- ===== src/Wake/Open.antt =====
-- `open`, `openWindows` and `configure` of WakeTarget: which kernel object is opened, and that no
-- descriptor is lost on the way. The answers of the system calls are an argument.
use tdlua.Prelude.{
  ℕ, suc, ◌≡◌, Bool, true, false, ◌&&◌, Option, none, some, List, [], ◌∷◌, ◌++◌, if◌then◌else◌,
  ◌==◌,
}
use tdlua.Wake.{WakeTarget, closed_target, fail}

-- A pair of descriptors, with the two answers of `configure`, the second read only if the first
-- succeeds.
pub record Pair : Type 0 where
  pub read_end : ℕ
  pub write_end : ℕ
  pub read_configured : Bool
  pub write_configured : Bool

-- `none`: the call failed with the code that follows. `has_eventfd`: a Linux build.
pub record PosixAnswers : Type 0 where
  pub has_eventfd : Bool
  pub eventfd : Option ℕ
  pub eventfd_code : ℕ
  pub socketpair : Option Pair
  pub pipe : Option Pair
  pub last_code : ℕ

-- What was opened, what was closed again, and the target.
pub record Opened : Type 0 where
  pub target : WakeTarget
  pub opened : List ℕ
  pub closed : List ℕ

abbrev pub with_ends : ℕ → ℕ → WakeTarget → WakeTarget
with_ends r w t = record t { read_fd = some r; write_fd = some w; reliable = true }

abbrev pub configured : Pair → Bool
configured p = p.read_configured && p.write_configured

-- The last resort, a pipe.
abbrev pub try_pipe : Option Pair → ℕ → Opened → Opened
try_pipe none code o = record o { target = record o.target { error = code; reliable = false } }
try_pipe (some p) code o =
    if configured p
    then record o {
      target = with_ends p.read_end p.write_end o.target;
      opened = o.opened ++ p.read_end ∷ p.write_end ∷ [];
    }
    else record {
      target = record o.target { error = code; reliable = false };
      opened = o.opened ++ p.read_end ∷ p.write_end ∷ [];
      closed = o.closed ++ p.read_end ∷ p.write_end ∷ [];
    }

abbrev pub try_socketpair : Option Pair → PosixAnswers → Opened → Opened
try_socketpair none a o = try_pipe a.pipe a.last_code o
try_socketpair (some p) a o =
    if configured p
    then record o {
      target = with_ends p.read_end p.write_end o.target;
      opened = o.opened ++ p.read_end ∷ p.write_end ∷ [];
    }
    else try_pipe a.pipe a.last_code (record o {
      opened = o.opened ++ p.read_end ∷ p.write_end ∷ [];
      closed = o.closed ++ p.read_end ∷ p.write_end ∷ [];
    })

abbrev pub try_eventfd : Option ℕ → PosixAnswers → Opened → Opened
try_eventfd none a o =
    try_socketpair a.socketpair a (record o { target = record o.target { error = a.eventfd_code } })
try_eventfd (some fd) a o = record o {
  target = with_ends fd fd o.target;
  opened = o.opened ++ fd ∷ [];
}

abbrev pub nothing_open : Opened
nothing_open = record { target = closed_target; opened = []; closed = [] }

-- The constructor of a POSIX build.
unfoldable pub open_posix : PosixAnswers → Opened
unfolding closed_target
open_posix a =
    if a.has_eventfd
    then try_eventfd a.eventfd a nothing_open
    else try_socketpair a.socketpair a nothing_open

-- The TCP loopback pair of a Windows build. Each call answers with a socket, or whether it
-- succeeded; `code` is what the failing call leaves in the last error.
pub record WindowsAnswers : Type 0 where
  pub winsock : Bool
  pub winsock_code : ℕ
  pub listener : Option ℕ
  pub listening : Bool
  pub writer : Option ℕ
  pub connected : Bool
  pub reader : Option ℕ
  pub configured_both : Bool
  pub code : ℕ

abbrev pub gives_up : ℕ → List ℕ → List ℕ → Opened
gives_up code opened closed = record {
  target = fail code closed_target;
  opened = opened;
  closed = closed;
}

abbrev pub accept_pair : WindowsAnswers → ℕ → ℕ → Option ℕ → Opened
accept_pair a listener writer none =
    gives_up a.code (listener ∷ writer ∷ []) (listener ∷ writer ∷ [])
accept_pair a listener writer (some reader) =
    if a.configured_both
    then record {
      target = with_ends reader writer closed_target;
      opened = listener ∷ writer ∷ reader ∷ [];
      closed = listener ∷ [];
    }
    else gives_up a.code (listener ∷ writer ∷ reader ∷ []) (listener ∷ reader ∷ writer ∷ [])

abbrev pub connect_writer : WindowsAnswers → ℕ → Option ℕ → Opened
connect_writer a listener none = gives_up a.code (listener ∷ []) (listener ∷ [])
connect_writer a listener (some writer) =
    if a.connected
    then accept_pair a listener writer a.reader
    else gives_up a.code (listener ∷ writer ∷ []) (writer ∷ listener ∷ [])

abbrev pub listen_on : WindowsAnswers → Option ℕ → Opened
listen_on a none = gives_up a.code [] []
listen_on a (some listener) =
    if a.listening
    then connect_writer a listener a.writer
    else gives_up a.code (listener ∷ []) (listener ∷ [])

unfoldable pub open_windows : WindowsAnswers → Opened
unfolding closed_target fail
open_windows a = if a.winsock then listen_on a a.listener else record {
  target = record closed_target { error = a.winsock_code; reliable = false };
  opened = [];
  closed = [];
}

-- How often a descriptor stands in a list.
abbrev pub count : ℕ → List ℕ → ℕ
count fd [] = 0
count fd (x ∷ xs) = if x == fd then suc (count fd xs) else count fd xs

-- Two descriptors that `socketpair` or `pipe` returns together are different.
abbrev pub DistinctEnds : Option Pair → Type 0
DistinctEnds none = Unit {0}
DistinctEnds (some p) = (p.write_end == p.read_end) ≡ false
