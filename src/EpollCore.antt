-- ===== src/EpollCore.antt =====
-- `epoll_core` of proxy/epoll_queue/epoll_core.h and epoll_core.cpp: the handlers of descriptors,
-- and the loop that waits for events and calls them. The kernel's state and its calls
-- `epoll_ctl` and `epoll_wait`, and what a handler does, are parameters.
pub mod Dispatch
pub mod Rounds
use proxi.Base.{
  ℕ, zero, suc, List, [], ◌∷◌, ◌++◌, Option, none, some, Bool, true, false, Outcome, ok, fault,
  annotated, no_fuel, ◌>>=◌, ◌==◌, if◌then◌else◌,
}

-- the operations of `epoll_ctl`
pub data Operation : Type 0 where
  ctl_add ctl_del ctl_mod : Operation

-- what `epoll_wait` returns: events with their descriptors, -1 with EINTR, -1 with another error
pub data Waited : Type 0 where
  events : List (ℕ × ℕ) → Waited
  interrupted failed : Waited

pub record EpollCore (K H : Type 0) : Type 0 where
  pub kernel : K
  pub handlers : List (ℕ × H)
  pub started : Bool
  pub stopped : Bool

-- The calls of the kernel, `none` for an error of `epoll_ctl`, and the call of a handler.
pub record Calls (K H : Type 0) : Type 0 where
  pub epoll_ctl : Operation → ℕ → ℕ → K → Option K
  pub epoll_wait : K → Waited × K
  pub handle : H → ℕ → EpollCore K H → Outcome (EpollCore K H)

module _ {H : Type 0} where
  unfoldable pub find_handler : ℕ → List (ℕ × H) → Option H
  find_handler fd [] = none
  find_handler fd ((k, h) ∷ l) = if k == fd then some h else find_handler fd l

  -- `handlers.insert`: a key that is there keeps its handler
  unfoldable pub insert_handler : ℕ → H → List (ℕ × H) → List (ℕ × H)
  insert_handler fd h [] = (fd, h) ∷ []
  insert_handler fd h ((k, h') ∷ l) =
      if k == fd then (k, h') ∷ l else (k, h') ∷ insert_handler fd h l

  -- `handlers.erase`
  unfoldable pub erase_handler : ℕ → List (ℕ × H) → List (ℕ × H)
  erase_handler fd [] = []
  erase_handler fd ((k, h) ∷ l) =
      let rest = erase_handler fd l in if k == fd then rest else (k, h) ∷ rest

module _ {K H : Type 0} where
  -- the constructor, where `epoll_create` gives a descriptor
  unfoldable pub empty : K → EpollCore K H
  empty kernel = record { kernel = kernel; handlers = []; started = false; stopped = true }

  unfoldable pub stop_wait : EpollCore K H → EpollCore K H
  stop_wait c = record c { stopped = true }

  unfoldable pub update_fd_handler : ℕ → H → EpollCore K H → EpollCore K H
  update_fd_handler fd h c = record c {
    handlers = insert_handler fd h (erase_handler fd c.handlers);
  }

module _ {K H : Type 0} (calls : Calls K H) where
  -- `epoll_ctl`, and the exception behind it
  unfoldable pub control : Operation → ℕ → ℕ → EpollCore K H → Outcome (EpollCore K H)
  control op fd state c = elim (calls.epoll_ctl op fd state c.kernel) [
    | none ↦ fault annotated
    | some kernel ↦ ok (record c { kernel = kernel })
  ]

  unfoldable pub register_fd : ℕ → ℕ → EpollCore K H → Outcome (EpollCore K H)
  register_fd fd state c = control ctl_add fd state c

  unfoldable pub register_handler : ℕ → ℕ → H → EpollCore K H → Outcome (EpollCore K H)
  register_handler fd state h c = do
    c' ← register_fd fd state c
    ok (record c' { handlers = insert_handler fd h c'.handlers })

  unfoldable pub unregister_fd : ℕ → EpollCore K H → Outcome (EpollCore K H)
  unregister_fd fd c = do
    c' ← control ctl_del fd 0 c
    ok (record c' { handlers = erase_handler fd c'.handlers })

  unfoldable pub update_fd : ℕ → ℕ → EpollCore K H → Outcome (EpollCore K H)
  update_fd fd state c = control ctl_mod fd state c

  -- the call for one event
  unfoldable pub handle_event : ℕ → ℕ → EpollCore K H → Outcome (EpollCore K H)
  handle_event fd state c = elim (find_handler fd c.handlers) [
    | none ↦ ok c
    | some h ↦ calls.handle h state c
  ]

  -- the `for` loop over the events that came in
  unfoldable pub dispatch : List (ℕ × ℕ) → EpollCore K H → Outcome (EpollCore K H)
  dispatch [] c = ok c
  dispatch ((fd, state) ∷ l) c =
      handle_event fd state c >>= λ c'. elim c'.stopped [ true ↦ ok c' | false ↦ dispatch l c' ]

  -- the `while` loop, for a number of rounds: nothing but a handler or a signal ends it
  unfoldable pub wait_loop : ℕ → EpollCore K H → Outcome (EpollCore K H)
  wait_loop zero c = fault no_fuel
  wait_loop (suc fuel) c = elim c.stopped [
    | true ↦ ok c
    | false ↦
        let (waited, kernel) = calls.epoll_wait c.kernel in
        let c' = record c { kernel = kernel } in
        elim waited [
          | events l ↦ dispatch l c' >>= λ c''. wait_loop fuel c''
          | interrupted ↦ ok c'
          | failed ↦ fault annotated
        ]
  ]

  unfoldable pub start_wait : ℕ → EpollCore K H → Outcome (EpollCore K H)
  start_wait fuel c = elim c.started [
    | true ↦ ok c
    | false ↦ wait_loop fuel (record c { started = true; stopped = false }) >>= λ c'.
        ok (record c' { started = false })
  ]
