-- ===== src/EpollCore/Dispatch.antt =====
-- Which handler an event finds, and in what order events are handled.
use proxi.Base.{
  ℕ, ◌≡◌, refl, sym, ◌∙◌, ap, List, [], ◌∷◌, ◌++◌, Option, none, some, Bool, true, false,
  ok-injective, Outcome-cases, ok, fault, Fault, subst, Option-cases, ◌↔◌, ◌==◌, if◌then◌else◌,
  arith, Bool-cases, inl, inr,
}
use proxi.EpollCore.{
  EpollCore, Calls, find_handler, insert_handler, erase_handler, update_fd_handler, dispatch,
  handle_event,
}

module _ {H : Type 0} where
  find-erase_handler :
      (fd other : ℕ) (l : List (ℕ × H))
      → find_handler other (erase_handler fd l)
        ≡ (if fd == other then none else find_handler other l)
  unfolding find_handler erase_handler
  find-erase_handler fd other [] = ground arith
  find-erase_handler fd other ((k, h) ∷ l) = ground (arith, find-erase_handler fd other l)

  -- What `insert` leaves at a key that had a handler, and at one that had none.
  abbrev pub kept_or : Option H → H → Option H
  kept_or none h = some h
  kept_or (some h') h = some h'

  find-insert_handler :
      (fd other : ℕ) (h : H) (l : List (ℕ × H))
      → find_handler other (insert_handler fd h l)
        ≡ (if fd == other then kept_or (find_handler fd l) h else find_handler other l)
  unfolding find_handler insert_handler
  find-insert_handler fd other h [] = ground arith
  find-insert_handler fd other h ((k, h') ∷ l) = ground (arith, find-insert_handler fd other h l)

  -- A handler that replaces what the descriptor had is the one that its events find.
  pub find-replaced_handler :
      (fd : ℕ) (h : H) (l : List (ℕ × H))
      → find_handler fd (insert_handler fd h (erase_handler fd l)) ≡ some h
  find-replaced_handler fd h l =
      ground (arith, find-insert_handler fd fd h (erase_handler fd l), find-erase_handler fd fd l)

  -- After `update_fd_handler` events of the descriptor find the new handler, whatever was there
  -- before, and events of every other descriptor find the one that they found.
  pub find-update_fd_handler :
      {K : Type 0} (fd other : ℕ) (h : H) (c : EpollCore K H)
      → find_handler other (update_fd_handler fd h c).handlers
        ≡ (if fd == other then some h else find_handler other c.handlers)
  unfolding update_fd_handler
  find-update_fd_handler fd other h c = ground (
    arith,
    find-insert_handler fd other h (erase_handler fd c.handlers),
    find-erase_handler fd fd c.handlers,
    find-erase_handler fd other c.handlers,
  )

module _ {K H : Type 0} (calls : Calls K H) where
  -- How the events of one wait are handled: each in its turn, by the handler that its descriptor
  -- has when the turn comes, until the loop is stopped; an event of a descriptor without a handler
  -- does nothing. The events behind the one that stopped the loop are not handled.
  pub data Handles : List (ℕ × ℕ) → EpollCore K H → EpollCore K H → Type 0 where
    all : {c : EpollCore K H} → Handles [] c c
    called :
        {fd state : ℕ} {l : List (ℕ × ℕ)} {c c' : EpollCore K H} (h : H) (c1 : EpollCore K H)
        → find_handler fd c.handlers ≡ some h
        → calls.handle h state c ≡ ok c1
        → c1.stopped ≡ false
        → Handles l c1 c'
        → Handles ((fd, state) ∷ l) c c'
    called_last :
        {fd state : ℕ} {l : List (ℕ × ℕ)} {c c1 : EpollCore K H} (h : H)
        → find_handler fd c.handlers ≡ some h
        → calls.handle h state c ≡ ok c1
        → c1.stopped ≡ true
        → Handles ((fd, state) ∷ l) c c1
    unknown :
        {fd state : ℕ} {l : List (ℕ × ℕ)} {c c' : EpollCore K H}
        → find_handler fd c.handlers ≡ none
        → c.stopped ≡ false
        → Handles l c c'
        → Handles ((fd, state) ∷ l) c c'
    unknown_last :
        {fd state : ℕ} {l : List (ℕ × ℕ)} {c : EpollCore K H}
        → find_handler fd c.handlers ≡ none
        → c.stopped ≡ true
        → Handles ((fd, state) ∷ l) c c

  dispatch_next :
      (fd state : ℕ) (l : List (ℕ × ℕ)) (c c1 : EpollCore K H)
      → handle_event calls fd state c ≡ ok c1
      → c1.stopped ≡ false
      → dispatch calls ((fd, state) ∷ l) c ≡ dispatch calls l c1
  unfolding dispatch
  dispatch_next fd state l c c1 e s =
      let first : dispatch calls ((fd, state) ∷ l) c
          ≡ elim c1.stopped [ true ↦ ok c1 | false ↦ dispatch calls l c1 ] =
        rw (dispatch, e) refl in
      first ∙ ap (λ (t : Bool). elim t [ true ↦ ok c1 | false ↦ dispatch calls l c1 ]) s

  dispatch_last :
      (fd state : ℕ) (l : List (ℕ × ℕ)) (c c1 : EpollCore K H)
      → handle_event calls fd state c ≡ ok c1
      → c1.stopped ≡ true
      → dispatch calls ((fd, state) ∷ l) c ≡ ok c1
  unfolding dispatch
  dispatch_last fd state l c c1 e s =
      let first : dispatch calls ((fd, state) ∷ l) c
          ≡ elim c1.stopped [ true ↦ ok c1 | false ↦ dispatch calls l c1 ] =
        rw (dispatch, e) refl in
      first ∙ ap (λ (t : Bool). elim t [ true ↦ ok c1 | false ↦ dispatch calls l c1 ]) s

  handle_event-none :
      (fd state : ℕ) (c : EpollCore K H)
      → find_handler fd c.handlers ≡ none
      → handle_event calls fd state c ≡ ok c
  unfolding handle_event
  handle_event-none fd state c e = grind (arith, e)

  handle_event-some :
      (fd state : ℕ) (c : EpollCore K H) (h : H)
      → find_handler fd c.handlers ≡ some h
      → handle_event calls fd state c ≡ calls.handle h state c
  unfolding handle_event
  handle_event-some fd state c h e = grind (arith, e)

  Handles-dispatch :
      {l : List (ℕ × ℕ)} {c c' : EpollCore K H} → Handles l c c' → dispatch calls l c ≡ ok c'
  unfolding dispatch
  Handles-dispatch all = refl
  Handles-dispatch (called {fd = fd} {state = state} {l = l} {c = c} h c1 found runs on rest) =
      dispatch_next fd state l c c1 (handle_event-some fd state c h found ∙ runs) on
      ∙ Handles-dispatch rest
  Handles-dispatch
        (called_last {fd = fd} {state = state} {l = l} {c = c} {c1 = c1} h found runs off) =
      dispatch_last fd state l c c1 (handle_event-some fd state c h found ∙ runs) off
  Handles-dispatch (unknown {fd = fd} {state = state} {l = l} {c = c} missing on rest) =
      dispatch_next fd state l c c (handle_event-none fd state c missing) on ∙ Handles-dispatch rest
  Handles-dispatch (unknown_last {fd = fd} {state = state} {l = l} {c = c} missing off) =
      dispatch_last fd state l c c (handle_event-none fd state c missing) off

  dispatch_fails :
      (fd state : ℕ) (l : List (ℕ × ℕ)) (c : EpollCore K H) (f : Fault)
      → handle_event calls fd state c ≡ fault f
      → dispatch calls ((fd, state) ∷ l) c ≡ fault f
  unfolding dispatch
  dispatch_fails fd state l c f e = rw (dispatch, e) refl

  dispatch-Handles_one :
      (l : List (ℕ × ℕ)) (c c' : EpollCore K H) → dispatch calls l c ≡ ok c' → Handles l c c'
  unfolding dispatch
  dispatch-Handles_one [] c c' e = subst (Handles [] c) (ok-injective e) all
  dispatch-Handles_one ((fd, state) ∷ l) c c' e = elim (Option-cases (find_handler fd c.handlers)) [
    | inl missing ↦
        let idle = handle_event-none fd state c missing in
        elim (Bool-cases c.stopped) [
          | inl off ↦
              subst (Handles ((fd, state) ∷ l) c)
                (ok-injective (sym (dispatch_last fd state l c c idle off) ∙ e))
                (unknown_last missing off)
          | inr on ↦
              unknown missing on
                (dispatch-Handles_one l c c' (sym (dispatch_next fd state l c c idle on) ∙ e))
        ]
    | inr (h, found) ↦
        let same = handle_event-some fd state c h found in
        elim (Outcome-cases (calls.handle h state c)) [
          | inr (f, fails) ↦ cc (sym (dispatch_fails fd state l c f (same ∙ fails)) ∙ e)
          | inl (c1, runs) ↦ elim (Bool-cases c1.stopped) [
            | inl off ↦
                subst (Handles ((fd, state) ∷ l) c)
                  (ok-injective (sym (dispatch_last fd state l c c1 (same ∙ runs) off) ∙ e))
                  (called_last h found runs off)
            | inr on ↦ called h c1 found runs on (
                dispatch-Handles_one l c1 c'
                  (sym (dispatch_next fd state l c c1 (same ∙ runs) on) ∙ e))
          ]
        ]
  ]

  -- The loop over the events of one wait returns the core `c'` exactly if handling each event in
  -- its turn leads there: by the handler that its descriptor has then, none if it has none, and
  -- with no event behind the one that stopped the loop.
  pub dispatch-Handles :
      (l : List (ℕ × ℕ)) (c c' : EpollCore K H) → (dispatch calls l c ≡ ok c') ↔ Handles l c c'
  dispatch-Handles l c c' = (dispatch-Handles_one l c c', Handles-dispatch)

  -- Events that did not stop the loop, and further ones behind them.
  pub Handles-append :
      (more : List (ℕ × ℕ)) {l : List (ℕ × ℕ)} {c c' : EpollCore K H}
      → Handles l c c'
      → c'.stopped ≡ false
      → dispatch calls (l ++ more) c ≡ dispatch calls more c'
  Handles-append more all still = refl
  Handles-append more (called {fd = fd} {state = state} {l = l} {c = c} h c1 found runs on rest)
        still =
      dispatch_next fd state (l ++ more) c c1 (handle_event-some fd state c h found ∙ runs) on
      ∙ Handles-append more rest still
  Handles-append more (called_last h found runs off) still = cc
  Handles-append more (unknown {fd = fd} {state = state} {l = l} {c = c} missing on rest) still =
      dispatch_next fd state (l ++ more) c c (handle_event-none fd state c missing) on
      ∙ Handles-append more rest still
  Handles-append more (unknown_last missing off) still = cc
