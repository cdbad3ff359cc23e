-- ===== src/Tests/Loops.antt =====
-- The results on the loop over events: three descriptors, of which one has a handler that stops
-- the loop, and a kernel whose state is the number of calls of `epoll_wait`.
use proxi.Base.{ℕ, ◌+◌, ◌≡◌, ◌↔◌, [], ◌∷◌, some, true, false, ok, ◌==◌, if◌then◌else◌}
use proxi.EpollCore.{EpollCore, Calls, events, dispatch}
use proxi.EpollCore.Dispatch.{Handles, dispatch-Handles}

-- The handler 9 stops the loop, and every other one does nothing.
abbrev calls : Calls ℕ ℕ
calls = record {
  epoll_ctl = λ op fd state kernel. some kernel;
  epoll_wait = λ kernel. (events ((5, 1) ∷ (6, 1) ∷ (7, 1) ∷ []), kernel + 1);
  handle = λ h state c. ok (if h == 9 then record c { stopped = true } else c);
}

abbrev core : EpollCore ℕ ℕ
core = record {
  kernel = 0;
  handlers = (5, 1) ∷ (6, 9) ∷ (7, 2) ∷ [];
  started = true;
  stopped = false;
}

abbrev ended : EpollCore ℕ ℕ
ended = record core { stopped = true }

dispatch-Handles_example :
    (dispatch calls ((5, 1) ∷ (4, 1) ∷ (6, 1) ∷ (7, 1) ∷ []) core ≡ ok ended)
    ↔ Handles calls ((5, 1) ∷ (4, 1) ∷ (6, 1) ∷ (7, 1) ∷ []) core ended
dispatch-Handles_example =
    dispatch-Handles calls ((5, 1) ∷ (4, 1) ∷ (6, 1) ∷ (7, 1) ∷ []) core ended
