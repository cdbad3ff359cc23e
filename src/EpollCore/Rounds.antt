-- ===== src/EpollCore/Rounds.antt =====
-- The rounds of the loop over events that are done and do not stop it.
use proxi.Base.{ℕ, suc, ◌+◌, ◌≡◌, refl, ◌∙◌, ap, List, ◌∷◌, ◌++◌, ok, true, false, arith}
use proxi.EpollCore.Dispatch.{dispatch-Handles, Handles-append}
use proxi.EpollCore.{EpollCore, Calls, events, dispatch, wait_loop}

module _ {K H : Type 0} (calls : Calls K H) where
  -- the core behind a call of `epoll_wait`
  abbrev pub waited : EpollCore K H → EpollCore K H
  waited c = record c { kernel = (calls.epoll_wait c.kernel).1 }

  -- A number of rounds: in each one events come in, and every one of them is handled.
  pub data Rounds (c : EpollCore K H) : ℕ → EpollCore K H → Type 0 where
    begin : Rounds c 0 c
    round :
        {n : ℕ} {c1 c2 : EpollCore K H} (l : List (ℕ × ℕ))
        → Rounds c n c1
        → c1.stopped ≡ false
        → (calls.epoll_wait c1.kernel).0 ≡ events l
        → dispatch calls l (waited c1) ≡ ok c2
        → Rounds c (suc n) c2

  wait_loop_next :
      (fuel : ℕ) (l : List (ℕ × ℕ)) (c c1 : EpollCore K H)
      → c.stopped ≡ false
      → (calls.epoll_wait c.kernel).0 ≡ events l
      → dispatch calls l (waited c) ≡ ok c1
      → wait_loop calls (suc fuel) c ≡ wait_loop calls fuel c1
  unfolding wait_loop
  wait_loop_next fuel l c c1 on comes runs = rw (wait_loop, on, comes, runs) refl

  -- The loop goes on from where the rounds lead to.
  pub wait_loop-Rounds :
      {c : EpollCore K H} {n : ℕ} {c' : EpollCore K H} (fuel : ℕ)
      → Rounds c n c'
      → wait_loop calls (n + fuel) c ≡ wait_loop calls fuel c'
  wait_loop-Rounds {c = c} fuel begin = ap (λ f. wait_loop calls f c) (omega arith)
  wait_loop-Rounds {c = c} {n = suc n} fuel (round {c1 = c1} {c2 = c2} l r on comes runs) =
      let first : wait_loop calls (suc n + fuel) c ≡ wait_loop calls (n + suc fuel) c =
        ap (λ f. wait_loop calls f c) (omega arith) in
      first ∙ wait_loop-Rounds (suc fuel) r ∙ wait_loop_next fuel l c1 c2 on comes runs

  -- A handler that stops the loop, in whatever place of a round.
  pub wait_loop-stops :
      (fuel fd state : ℕ) (before after : List (ℕ × ℕ)) (c c1 c2 : EpollCore K H)
      → c.stopped ≡ false
      → (calls.epoll_wait c.kernel).0 ≡ events (before ++ (fd, state) ∷ after)
      → dispatch calls before (waited c) ≡ ok c1
      → c1.stopped ≡ false
      → dispatch calls ((fd, state) ∷ after) c1 ≡ ok c2
      → c2.stopped ≡ true
      → wait_loop calls (suc (suc fuel)) c ≡ ok c2
  unfolding wait_loop
  wait_loop-stops fuel fd state before after c c1 c2 on comes runs still stops off =
      let handled = (dispatch-Handles calls before (waited c) c1).0 runs in
      let all = Handles-append calls ((fd, state) ∷ after) handled still in
      let last : wait_loop calls (suc fuel) c2 ≡ ok c2 = grind (arith, off) in
      wait_loop_next (suc fuel) (before ++ (fd, state) ∷ after) c c2 on comes (all ∙ stops) ∙ last
