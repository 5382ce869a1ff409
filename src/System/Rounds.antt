-- ===== src/System/Rounds.antt =====
-- A round of the event loop as steps of the proxy.
use nermalproxy.Prelude.{ℕ, ◌≡◌, false, Bool, true, List, [], ◌∷◌, ◌++◌, map}
use nermalproxy.Stats.{Disk}
use nermalproxy.Loop.{Loop, Inputs}
use nermalproxy.Loop.Dispatching.{EpollAnswer, interrupted, broken, timed_out, ready}
use nermalproxy.System.{System, Step, event, timeout}
use nermalproxy.System.Runs.{Run, start, next}

-- The system with another loop.
abbrev pub with_loop : System → Loop → System
with_loop s l = record s { loop = l }

-- What a step was.
pub data Happened : Type 0 where
  an_event : ℕ × Inputs → Happened
  a_timeout : ℕ → Disk → Happened
  a_worker : Happened

abbrev happened : {s s' : System} → Step s s' → Happened
happened (event i fd going e) = an_event (fd, i)
happened (timeout now disk going e) = a_timeout now disk
happened _ = a_worker

-- The steps of a run, in their order.
abbrev pub trace : {s t : System} → Run s t → List Happened
trace start = []
trace (next r st) = trace r ++ happened st ∷ []

-- The loop over the events has made a step for each of the first ones; and for all of them, unless
-- it has stopped the proxy.
abbrev HandledFrom : System → List Happened → List (ℕ × Inputs) → Bool → Loop → Type 0
HandledFrom s before es going l =
    (front back : List (ℕ × Inputs)) × (es ≡ front ++ back)
    × (r : Run s (with_loop s l)) × (trace r ≡ before ++ map an_event front)
    × (going ≡ true → back ≡ [])

-- What a round of an active loop does, for each answer of `epoll_wait`.
abbrev pub Handled : System → EpollAnswer → Bool → Loop → Type 0
Handled s interrupted going l = (going ≡ true) × (s.loop ≡ l)
Handled s broken going l = (going ≡ false) × (s.loop ≡ l)
Handled s (timed_out now disk) going l =
    (r : Run s (with_loop s l)) × (trace r ≡ a_timeout now disk ∷ [])
Handled s (ready es) going l =
    (front back : List (ℕ × Inputs)) × (es ≡ front ++ back)
    × (r : Run s (with_loop s l)) × (trace r ≡ map an_event front)
    × (going ≡ true → back ≡ [])
