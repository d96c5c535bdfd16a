-- ===== src/Control/Mutex/Finish.antt =====
-- The lock of iec61850/iec61850_control.go is always given back.
use mathlib.Core.Path.{subst}
use go_libiec.Prelude.{
  ℕ, suc, Bool, true, false, Option, List, [], ◌∷◌, ◌++◌, map, ◌≡◌, refl, sym, ◌∙◌,
}
use go_libiec.Control.{ControlApi, Client, ControlError}
use go_libiec.Control.Mutex.{
  Call, Program, finished, next, steps_of, Goroutine, waiting, inside, returned, Shared, move,
  move_at, interleave, callers, fresh,
}
use go_libiec.Control.Mutex.Serial.{holders, Serial, interleave-IsSerial}

abbrev pub AllReturned : List Goroutine → Type 0
AllReturned [] = Unit
AllReturned (waiting n call ∷ gs) = ⊥
AllReturned (inside n p ∷ gs) = ⊥
AllReturned (returned n r ∷ gs) = AllReturned gs

-- The lock is free, and nobody is between the lock and the unlock.
abbrev Idle : List Goroutine × Shared → Type 0
Idle now = (now.1.locked ≡ false) × (holders now.0 ≡ [])

abbrev Done : List Goroutine × Shared → Type 0
Done now = (now.1.locked ≡ false) × AllReturned now.0

-- The first goroutine has returned, and the lock is free.
abbrev Left : ℕ → List Goroutine → List Goroutine × Shared → Type 0
Left n gs now =
    (r : Option ControlError) × (s : Shared) × (now ≡ (returned n r ∷ gs, s)) × (s.locked ≡ false)

module _ (a : ControlApi) where
  -- Some schedule leads to a state of `P`.
  abbrev Reaches : (List Goroutine × Shared → Type 0) → List Goroutine × Shared → Type 0
  Reaches P now = (is : List ℕ) × P (interleave a is now)

  interleave-append :
      (is js : List ℕ) (now : List Goroutine × Shared)
      → interleave a (is ++ js) now ≡ interleave a js (interleave a is now)
  unfolding interleave
  interleave-append [] js now = refl
  interleave-append (i ∷ is) js now = interleave-append is js (move_at a i now.0 now.1)

  interleave-suc :
      (is : List ℕ) (g : Goroutine) (gs : List Goroutine) (s : Shared)
      → interleave a (map suc is) (g ∷ gs, s)
        ≡ (g ∷ (interleave a is (gs, s)).0, (interleave a is (gs, s)).1)
  unfolding interleave move_at
  interleave-suc [] g gs s = refl
  interleave-suc (i ∷ is) g gs s = interleave-suc is g (move_at a i gs s).0 (move_at a i gs s).1

  then_Reaches :
      {P : List Goroutine × Shared → Type 0} (Q : List Goroutine × Shared → Type 0)
      (now : List Goroutine × Shared)
      → Reaches P now
      → ((t : List Goroutine × Shared) → P t → Reaches Q t)
      → Reaches Q now
  then_Reaches Q now (is, p) step =
      let (js, q) = step (interleave a is now) p in
      (is ++ js, subst Q (sym (interleave-append is js now)) q)

  -- The goroutine with the lock makes its steps, and gives it back.
  inside-Reaches :
      (p : Program) (n : ℕ) (gs : List Goroutine) (s : Shared)
      → Reaches (Left n gs) (inside n p ∷ gs, s)
  unfolding interleave move_at move
  inside-Reaches (finished r) n gs s = (0 ∷ [], (r, _, refl, refl))
  inside-Reaches (next act rest) n gs s =
      let (is, left) = inside-Reaches (rest s.client) n gs (record s { client = act s.client }) in
      (0 ∷ is, left)

  -- One that waits takes a free lock first.
  waiting-Reaches :
      (n : ℕ) (call : Call) (gs : List Goroutine) (s : Shared)
      → s.locked ≡ false
      → Reaches (Left n gs) (waiting n call ∷ gs, s)
  unfolding interleave move_at move
  waiting-Reaches n call gs s free =
      let (is, left) =
        inside-Reaches (steps_of a call) n gs
          (record s { locked = true; order = (n, call) ∷ s.order }) in
      (0 ∷ is, rw free left)

  -- A schedule of the others, with a goroutine in front that does not have the lock.
  behind-Idle :
      (g : Goroutine) (gs : List Goroutine) (s : Shared)
      → ((rest : List Goroutine) → holders (g ∷ rest) ≡ holders rest)
      → Reaches Idle (gs, s)
      → Reaches Idle (g ∷ gs, s)
  behind-Idle g gs s out (is, idle) = (
    map suc is,
    subst Idle (sym (interleave-suc is g gs s)) (idle.0, out (interleave a is (gs, s)).0 ∙ idle.1),
  )

  holder-Reaches :
      (gs : List Goroutine) (s : Shared) (x : ℕ × Program)
      → holders gs ≡ x ∷ []
      → Reaches Idle (gs, s)
  unfolding interleave
  holder-Reaches [] s x h = absurd cc
  holder-Reaches (waiting n call ∷ gs) s x h =
      behind-Idle (waiting n call) gs s (λ rest. refl) (holder-Reaches gs s x h)
  holder-Reaches (returned n r ∷ gs) s x h =
      behind-Idle (returned n r) gs s (λ rest. refl) (holder-Reaches gs s x h)
  holder-Reaches (inside n p ∷ gs) s x h =
      then_Reaches {P = Left n gs} Idle (inside n p ∷ gs, s) (inside-Reaches p n gs s)
        (λ t left. let (r, s', at, free) = left in ([], subst Idle (sym at) (free, cc)))

  Serial-Reaches :
      (c0 : Client) (b : Bool) (gs : List Goroutine) (s : Shared) (xs : List (ℕ × Program))
      → s.locked ≡ b
      → holders gs ≡ xs
      → Serial a c0 s b xs
      → Reaches Idle (gs, s)
  unfolding interleave
  Serial-Reaches c0 false gs s [] free is h = ([], (free, is))
  Serial-Reaches c0 false gs s (x ∷ xs) free is h = absurd h
  Serial-Reaches c0 true gs s [] taken is h = absurd h
  Serial-Reaches c0 true gs s (x ∷ []) taken is h = holder-Reaches gs s x is
  Serial-Reaches c0 true gs s (x ∷ y ∷ xs) taken is h = absurd h

  -- From a free lock on, one after the other.
  idle-Reaches :
      (gs : List Goroutine) (s : Shared) → s.locked ≡ false → holders gs ≡ [] → Reaches Done (gs, s)
  unfolding interleave
  idle-Reaches [] s free none_in = ([], (free, tt))
  idle-Reaches (inside n p ∷ gs) s free none_in = absurd cc
  idle-Reaches (returned n r ∷ gs) s free none_in =
      let (is, done) = idle-Reaches gs s free none_in in
      (map suc is, subst Done (sym (interleave-suc is (returned n r) gs s)) done)
  idle-Reaches (waiting n call ∷ gs) s free none_in =
      then_Reaches {P = Left n gs} Done (waiting n call ∷ gs, s) (waiting-Reaches n call gs s free)
        (λ t left.
          let (r, s', at, free') = left in
          let (is, done) = idle-Reaches gs s' free' none_in in
          (
            map suc is,
            subst (λ now. Done (interleave a (map suc is) now)) (sym at)
                (subst Done (sym (interleave-suc is (returned n r) gs s')) done),
          ))

  -- No goroutine is stuck: whatever the scheduler did with goroutines that operate controls and clear
  -- the cache, step by step, it can go on so that all of them return and the lock is free.
  pub interleave-finishes :
      (schedule : List ℕ) (calls : List (ℕ × Call)) (c0 : Client)
      → (more : List ℕ) × ((interleave a (schedule ++ more) (callers calls, fresh c0)).1.locked
          ≡ false)
        × AllReturned (interleave a (schedule ++ more) (callers calls, fresh c0)).0
  interleave-finishes schedule calls c0 =
      let start : List Goroutine × Shared = (callers calls, fresh c0) in
      let now = interleave a schedule start in
      let (more, done) =
        then_Reaches {P = Idle} Done now
          (Serial-Reaches c0 now.1.locked now.0 now.1 (holders now.0) refl refl
            (interleave-IsSerial a c0 schedule calls))
          (λ t idle. idle-Reaches t.0 t.1 idle.0 idle.1) in
      let (free, all) = subst Done (sym (interleave-append schedule more start)) done in
      (more, free, all)
