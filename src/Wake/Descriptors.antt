-- ===== src/Wake/Descriptors.antt =====
-- Opening a doorbell loses no descriptor, on any answer of the system.
use tdlua.Prelude.{
  ℕ, ◌+◌, ◌≡◌, refl, false, Option, none, some, List, [], ◌∷◌, ◌++◌, arith, ◌==◌, if_split,
}
use tdlua.Wake.{closed_target, valid, close}
use tdlua.Wake.Open.{
  Pair, PosixAnswers, Opened, WindowsAnswers, open_posix, open_windows, try_pipe, try_socketpair,
  try_eventfd, count, DistinctEnds, configured, nothing_open,
}

-- Each descriptor that was opened was closed again or is an end of the target, which `close` will
-- close once; and the target is reliable exactly if it has ends.
pub record IsAccounted (o : Opened) : Type 0 where
  pub balance : (fd : ℕ) → count fd o.opened ≡ count fd o.closed + count fd (close o.target).1
  pub honest : o.target.reliable ≡ valid o.target

-- Before an attempt all that was opened is closed, and the target has no ends.
record IsIdle (o : Opened) : Type 0 where
  returned : (fd : ℕ) → count fd o.opened ≡ count fd o.closed
  no_read : o.target.read_fd ≡ none
  no_write : o.target.write_fd ≡ none
  unreliable : o.target.reliable ≡ false

count-append : (fd : ℕ) (xs ys : List ℕ) → count fd (xs ++ ys) ≡ count fd xs + count fd ys
count-append fd [] ys = omega arith
count-append fd (x ∷ xs) ys = ground (arith, count-append fd xs ys)

try_pipe-IsAccounted :
    (p : Option Pair) (code : ℕ) (o : Opened)
    → DistinctEnds p
    → IsIdle o
    → IsAccounted (try_pipe p code o)
unfolding valid close
try_pipe-IsAccounted none code o d v = record {
  balance = λ fd. ground (arith, v.returned fd);
  honest = ground arith;
}
try_pipe-IsAccounted (some p) code o d v = record {
  balance = λ fd. ground (
    arith,
    v.returned fd,
    count-append fd o.opened (p.read_end ∷ p.write_end ∷ []),
    count-append fd o.closed (p.read_end ∷ p.write_end ∷ []),
  );
  honest = ground arith;
}

try_socketpair-IsAccounted :
    (p : Option Pair) (a : PosixAnswers) (o : Opened)
    → DistinctEnds p
    → DistinctEnds a.pipe
    → IsIdle o
    → IsAccounted (try_socketpair p a o)
unfolding valid close
try_socketpair-IsAccounted none a o d e v = try_pipe-IsAccounted a.pipe a.last_code o e v
try_socketpair-IsAccounted (some p) a o d e v =
    if_split IsAccounted (configured p)
      (λ c. record {
        balance = λ fd.
            ground (arith, v.returned fd, count-append fd o.opened (p.read_end ∷ p.write_end ∷ []));
        honest = refl;
      })
      (λ c. try_pipe-IsAccounted a.pipe a.last_code _ e (record {
        returned = λ fd. omega (
          arith,
          v.returned fd,
          count-append fd o.opened (p.read_end ∷ p.write_end ∷ []),
          count-append fd o.closed (p.read_end ∷ p.write_end ∷ []),
        );
        no_read = v.no_read;
        no_write = v.no_write;
        unreliable = v.unreliable;
      }))

idle : (code : ℕ) → IsIdle (record nothing_open { target = record closed_target { error = code } })
unfolding closed_target
idle code = record { returned = λ fd. refl; no_read = refl; no_write = refl; unreliable = refl }

-- On POSIX, whichever calls succeed, every descriptor opened was closed again or is an end of the
-- target, and the target is reliable exactly if it has ends; provided that the two descriptors of a
-- socket pair or a pipe are different.
pub open_posix-IsAccounted :
    (a : PosixAnswers)
    → DistinctEnds a.socketpair
    → DistinctEnds a.pipe
    → IsAccounted (open_posix a)
unfolding open_posix
open_posix-IsAccounted a d e =
    if_split IsAccounted a.has_eventfd (λ _. eventfd a.eventfd)
      (λ _. try_socketpair-IsAccounted a.socketpair a nothing_open d e (idle 0))
  where
    eventfd : (o : Option ℕ) → IsAccounted (try_eventfd o a nothing_open)
    eventfd none = try_socketpair-IsAccounted a.socketpair a _ d e (idle a.eventfd_code)
    eventfd (some fd) = unfold close valid in record { balance = λ x. ground arith; honest = refl }

abbrev pub DistinctSockets : Option ℕ → Option ℕ → Type 0
DistinctSockets (some r) (some w) = (w == r) ≡ false
DistinctSockets (some r) none = Unit {0}
DistinctSockets none w = Unit {0}

-- On Windows, whichever calls succeed, every socket opened, the listening one included, was closed
-- again or is an end of the target, and the target is reliable exactly if it has ends; provided
-- that the two ends are different sockets.
pub open_windows-IsAccounted :
    (a : WindowsAnswers) → DistinctSockets a.reader a.writer → IsAccounted (open_windows a)
unfolding open_windows valid close
open_windows-IsAccounted a d = record { balance = λ fd. ground arith; honest = ground arith }
