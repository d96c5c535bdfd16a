-- ===== src/Control/Mutex/Serial.antt =====
-- Goroutines that share the client of iec61850/iec61850_control.go have the effect of calls that run
-- one after the other.
use mathlib.Core.Path.{subst}
use go_libiec.Prelude.{
  ℕ, zero, suc, Bool, true, false, Option, List, [], ◌∷◌, ◌++◌, append_assoc, ◌≡◌, refl, sym, ap,
  ◌∙◌, inl, inr, Bool-cases,
}
use go_libiec.Control.{ControlApi, Client, ControlError}
use go_libiec.Control.Mutex.{
  Call, Program, finished, next, perform, steps_of, Goroutine, waiting, inside, returned, Shared,
  move, move_at, interleave, callers, fresh,
}
use go_libiec.Control.Mutex.Whole.{run, steps_of-perform}

module _ (a : ControlApi) where
  -- The calls one after the other, each as a whole; both lists have the last call first.
  unfoldable pub sequential : List (ℕ × Call) → Client → List (ℕ × Option ControlError) × Client
  unfolding perform
  sequential [] c = ([], c)
  sequential ((n, call) ∷ earlier) c =
      let (answers, c1) = sequential earlier c in
      let (r, c2) = perform a call c1 in ((n, r) ∷ answers, c2)

  -- The goroutines that have the lock: none where it is free, and the answers and the client are
  -- those of the calls in the order in which they got it; one where it is taken, and they will be
  -- so when the steps that are left were made.
  abbrev pub Serial : Client → Shared → Bool → List (ℕ × Program) → Type 0
  Serial c0 s false [] = (s.answers, s.client) ≡ sequential s.order c0
  Serial c0 s false (x ∷ xs) = ⊥
  Serial c0 s true [] = ⊥
  Serial c0 s true ((n, p) ∷ []) =
      ((n, (run p s.client).0) ∷ s.answers, (run p s.client).1) ≡ sequential s.order c0
  Serial c0 s true (x ∷ y ∷ xs) = ⊥

-- The goroutine in front of those that have the lock.
abbrev pub holder : Goroutine → List (ℕ × Program) → List (ℕ × Program)
holder (waiting n call) xs = xs
holder (inside n p) xs = (n, p) ∷ xs
holder (returned n r) xs = xs

abbrev pub holders : List Goroutine → List (ℕ × Program)
holders [] = []
holders (g ∷ gs) = holder g (holders gs)

abbrev pub IsSerial : ControlApi → Client → List Goroutine × Shared → Type 0
IsSerial a c0 (gs, s) = Serial a c0 s s.locked (holders gs)

module _ (a : ControlApi) (c0 : Client) where
  enter-Serial :
      (s : Shared) (n : ℕ) (call : Call) (front xs : List (ℕ × Program))
      → Serial a c0 s false (front ++ xs)
      → Serial a c0
          (record s { locked = true; order = (n, call) ∷ s.order })
          true
          (front ++ ((n, steps_of a call) ∷ xs))
  unfolding sequential
  enter-Serial s n call [] [] h =
      ap (λ q. ((n, q.0) ∷ s.answers, q.1)) (steps_of-perform a call s.client)
      ∙ ap (λ q. ((n, (perform a call q.1).0) ∷ q.0, (perform a call q.1).1)) h
  enter-Serial s n call [] (x ∷ xs) h = absurd h
  enter-Serial s n call (x ∷ front) xs h = absurd h

  work-Serial :
      (s : Shared) (b : Bool) (n : ℕ) (act : Client → Client) (rest : Client → Program)
      (front xs : List (ℕ × Program))
      → Serial a c0 s b (front ++ ((n, next act rest) ∷ xs))
      → Serial a c0 (record s { client = act s.client }) b (front ++ ((n, rest s.client) ∷ xs))
  unfolding run
  work-Serial s true n act rest [] [] h = h
  work-Serial s true n act rest [] (x ∷ xs) h = absurd h
  work-Serial s true n act rest (x ∷ []) xs h = absurd h
  work-Serial s true n act rest (x ∷ y ∷ front) xs h = absurd h
  work-Serial s false n act rest [] xs h = absurd h
  work-Serial s false n act rest (x ∷ front) xs h = absurd h

  leave-Serial :
      (s : Shared) (b : Bool) (n : ℕ) (r : Option ControlError) (front xs : List (ℕ × Program))
      → Serial a c0 s b (front ++ ((n, finished r) ∷ xs))
      → Serial a c0 (record s { locked = false; answers = (n, r) ∷ s.answers }) false (front ++ xs)
  unfolding run
  leave-Serial s true n r [] [] h = h
  leave-Serial s true n r [] (x ∷ xs) h = absurd h
  leave-Serial s true n r (x ∷ []) xs h = absurd h
  leave-Serial s true n r (x ∷ y ∷ front) xs h = absurd h
  leave-Serial s false n r [] xs h = absurd h
  leave-Serial s false n r (x ∷ front) xs h = absurd h

  move-Serial :
      (g : Goroutine) (s : Shared) (front xs : List (ℕ × Program))
      → Serial a c0 s s.locked (front ++ holder g xs)
      → Serial a c0 (move a g s).1 (move a g s).1.locked (front ++ holder (move a g s).0 xs)
  unfolding move
  move-Serial (waiting n call) s front xs h = elim (Bool-cases s.locked) [
    | inl taken ↦ rw taken (rw (← taken) h)
    | inr free ↦ rw free (enter-Serial s n call front xs (rw (← free) h))
  ]
  move-Serial (inside n (next act rest)) s front xs h = work-Serial s s.locked n act rest front xs h
  move-Serial (inside n (finished r)) s front xs h = leave-Serial s s.locked n r front xs h
  move-Serial (returned n r) s front xs h = h

  move_at-Serial :
      (i : ℕ) (front : List (ℕ × Program)) (gs : List Goroutine) (s : Shared)
      → Serial a c0 s s.locked (front ++ holders gs)
      → Serial a c0
          (move_at a i gs s).1
          (move_at a i gs s).1.locked
          (front ++ holders (move_at a i gs s).0)
  unfolding move_at
  move_at-Serial i front [] s h = h
  move_at-Serial zero front (g ∷ gs) s h = move-Serial g s front (holders gs) h
  move_at-Serial (suc i) front (waiting n call ∷ gs) s h = move_at-Serial i front gs s h
  move_at-Serial (suc i) front (returned n r ∷ gs) s h = move_at-Serial i front gs s h
  move_at-Serial (suc i) front (inside n p ∷ gs) s h =
      let later = move_at a i gs s in
      subst (Serial a c0 later.1 later.1.locked)
        (append_assoc front ((n, p) ∷ []) (holders later.0))
        (move_at-Serial i (front ++ ((n, p) ∷ [])) gs s
          (subst (Serial a c0 s s.locked) (sym (append_assoc front ((n, p) ∷ []) (holders gs))) h))

  interleave-Serial :
      (schedule : List ℕ) (now : List Goroutine × Shared)
      → IsSerial a c0 now
      → IsSerial a c0 (interleave a schedule now)
  unfolding interleave
  interleave-Serial [] now h = h
  interleave-Serial (i ∷ is) (gs, s) h =
      interleave-Serial is (move_at a i gs s) (move_at-Serial i [] gs s h)

  no_holders : (calls : List (ℕ × Call)) → holders (callers calls) ≡ []
  no_holders [] = refl
  no_holders ((n, call) ∷ calls) = no_holders calls

  -- Whatever the scheduler does with goroutines that operate controls and clear the cache, step by
  -- step: at most one of them is between its lock and its unlock, and when none is, the answers that
  -- were given and the client are those of the calls as wholes, one after the other, in the order in
  -- which they got the lock; while one is, they will be that when its remaining steps were made.
  pub interleave-IsSerial :
      (schedule : List ℕ) (calls : List (ℕ × Call))
      → IsSerial a c0 (interleave a schedule (callers calls, fresh c0))
  unfolding sequential
  interleave-IsSerial schedule calls =
      interleave-Serial schedule (callers calls, fresh c0) (rw (no_holders calls) refl)
