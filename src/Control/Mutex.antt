-- ===== src/Control/Mutex.antt =====
-- The lock `controlMu` of iec61850/iec61850_control.go: goroutines that share a client, and whose
-- calls are made of the single steps of the code.
pub mod Whole
pub mod Serial
pub mod Finish
use go_libiec.Prelude.{
  ℕ, zero, suc, String, Bool, true, false, Option, none, some, List, [], ◌∷◌, ◌++◌, map, Dict,
  lookup, insert, if◌then◌else◌,
}
use go_libiec.Mms.Types.{MmsType}
use go_libiec.Control.{
  CtlVal, boolean, int32, float32, Event, create, destroy, new_value, delete_value, set_value,
  set_origin, operate, ControlApi, CachedControl, Client, entries, ControlError, create_failed,
  wrong_type, new_failed, operate_failed, clear_control_object_cache, is_integer, initial,
  direct_with_normal_security, direct_with_normal_security_int32,
  direct_with_normal_security_float32,
}

-- The functions that take the lock.
pub data Call : Type 0 where
  operate_boolean : String → Bool → Call
  operate_int32 operate_float32 : String → ℕ → Call
  clear : Call

-- What is left to do of a call: a step changes the client, and what it read of the client before
-- says what comes next.
pub data Program : Type 0 where
  finished : Option ControlError → Program
  next : (Client → Client) → (Client → Program) → Program

abbrev push : (List Event → Event) → Client → Client
push e c = record c { log = e c.log ∷ c.log }

abbrev put : String → CachedControl → Client → Client
put ref e c = record c { control_cache = some (insert ref e (entries c.control_cache)) }

abbrev pub delete_steps : Option ℕ → Program → Program
delete_steps none rest = rest
delete_steps (some v) rest = next (push (λ log. delete_value v)) λ c. rest

-- The loop of `clearControlObjectCache` over the entries that are left, and the reset of the map.
unfoldable pub clear_steps : Dict CachedControl → Program
clear_steps [] = next (λ c. record c { control_cache = none }) λ c. finished none
clear_steps ((k, e) ∷ d) =
    let rest = clear_steps d in
    delete_steps e.ctl_reuse (next (push (λ log. destroy e.ctrl)) λ c. rest)

module _ (a : ControlApi) where
  -- A call as a whole, from the lock to the unlock.
  unfoldable pub perform : Call → Client → Option ControlError × Client
  unfolding direct_with_normal_security direct_with_normal_security_int32
      direct_with_normal_security_float32 clear_control_object_cache
  perform (operate_boolean ref val) c = direct_with_normal_security a ref val c
  perform (operate_int32 ref val) c = direct_with_normal_security_int32 a ref val c
  perform (operate_float32 ref val) c = direct_with_normal_security_float32 a ref val c
  perform clear c = (none, clear_control_object_cache c)

  -- With the answer of `ControlObjectClient_operate`.
  unfoldable pub result_steps : String → ℕ → Bool → Program
  result_steps ref ctrl true = finished none
  result_steps ref ctrl false =
      next (λ c. c) λ c. finished (some (operate_failed ref (a.get_last_error c.log ctrl)))

  -- From the set of the value on.
  unfoldable pub send_steps : String → CtlVal → ℕ → ℕ → Program
  unfolding result_steps
  send_steps ref x ctrl v = next (push (λ log. set_value v x)) λ c.
      next (push (λ log. set_origin ctrl 3)) λ c1.
        next (push (λ log. operate ctrl v (a.operated log ctrl v)))
          λ c2. result_steps ref ctrl (a.operated c2.log ctrl v)

  unfoldable pub new_steps : String → CtlVal → ℕ → Option ℕ → Program
  unfolding send_steps
  new_steps ref x ctrl none = finished (some (new_failed ref))
  new_steps ref x ctrl (some v) =
      next (put ref (record { ctrl = ctrl; ctl_reuse = some v })) λ c. send_steps ref x ctrl v

  -- From the entry of the cache on.
  unfoldable pub value_steps : String → CtlVal → ℕ → Option ℕ → Program
  unfolding new_steps
  value_steps ref x ctrl (some v) = send_steps ref x ctrl v
  value_steps ref x ctrl none =
      next (push (λ log. new_value (initial a x) (a.allocated log (initial a x))))
        λ c. new_steps ref x ctrl (a.allocated c.log (initial a x))

  unfoldable pub keep_steps : String → CtlVal → ℕ → Program
  unfolding value_steps
  keep_steps ref x ctrl =
      next (put ref (record { ctrl = ctrl; ctl_reuse = none })) λ c. value_steps ref x ctrl none

  unfoldable pub type_steps : String → CtlVal → ℕ → MmsType → Program
  unfolding keep_steps
  type_steps ref x ctrl got =
      if is_integer got
      then keep_steps ref x ctrl
      else next (push (λ log. destroy ctrl)) λ c. finished (some (wrong_type ref got))

  unfoldable pub create_steps : String → Bool → CtlVal → Option ℕ → Program
  unfolding type_steps
  create_steps ref require x none = finished (some (create_failed ref))
  create_steps ref true x (some ctrl) =
      next (λ c. c) λ c. type_steps ref x ctrl (a.get_ctl_val_type c.log ctrl)
  create_steps ref false x (some ctrl) = keep_steps ref x ctrl

  unfoldable pub lookup_steps : String → Bool → CtlVal → Option CachedControl → Program
  unfolding create_steps
  lookup_steps ref require x (some e) = value_steps ref x e.ctrl e.ctl_reuse
  lookup_steps ref require x none =
      next (push (λ log. create ref (a.created log ref)))
        λ c. create_steps ref require x (a.created c.log ref)

  abbrev operate_steps : String → Bool → CtlVal → Program
  operate_steps ref require x =
      next (λ c. record c { control_cache = some (entries c.control_cache) })
        λ c. lookup_steps ref require x (lookup ref (entries c.control_cache))

  -- The steps of a call between the lock and the unlock.
  unfoldable pub steps_of : Call → Program
  unfolding lookup_steps clear_steps
  steps_of (operate_boolean ref val) = operate_steps ref false (boolean val)
  steps_of (operate_int32 ref val) = operate_steps ref true (int32 val)
  steps_of (operate_float32 ref val) = operate_steps ref false (float32 val)
  steps_of clear = next (λ c. c) λ c. clear_steps (entries c.control_cache)

-- A goroutine, by its name: before the lock, with the lock and the steps that are left, or after it.
pub data Goroutine : Type 0 where
  waiting : ℕ → Call → Goroutine
  inside : ℕ → Program → Goroutine
  returned : ℕ → Option ControlError → Goroutine

-- What the goroutines share: the client and the lock. `order` has the calls that got the lock and
-- `answers` the results of those that gave it back, the last one first.
pub record Shared : Type 0 where
  pub client : Client
  pub locked : Bool
  pub order : List (ℕ × Call)
  pub answers : List (ℕ × Option ControlError)

module _ (a : ControlApi) where
  -- A step of a goroutine: one that waits takes the lock if it is free, and one that is finished
  -- gives it back.
  unfoldable pub move : Goroutine → Shared → Goroutine × Shared
  unfolding steps_of
  move (waiting n call) s =
      if s.locked
      then (waiting n call, s)
      else (inside n (steps_of a call), record s { locked = true; order = (n, call) ∷ s.order })
  move (inside n (next act rest)) s = (inside n (rest s.client), record s { client = act s.client })
  move (inside n (finished r)) s =
      (returned n r, record s { locked = false; answers = (n, r) ∷ s.answers })
  move (returned n r) s = (returned n r, s)

  -- A step of the goroutine at an index.
  unfoldable pub move_at : ℕ → List Goroutine → Shared → List Goroutine × Shared
  unfolding move
  move_at i [] s = ([], s)
  move_at zero (g ∷ gs) s = let (g', s') = move g s in (g' ∷ gs, s')
  move_at (suc i) (g ∷ gs) s = let (gs', s') = move_at i gs s in (g ∷ gs', s')

  -- The scheduler picks an index at every step.
  unfoldable pub interleave : List ℕ → List Goroutine × Shared → List Goroutine × Shared
  unfolding move_at
  interleave [] now = now
  interleave (i ∷ is) (gs, s) = interleave is (move_at i gs s)

-- The goroutines at the start.
abbrev pub callers : List (ℕ × Call) → List Goroutine
callers [] = []
callers ((n, call) ∷ cs) = waiting n call ∷ callers cs

abbrev pub fresh : Client → Shared
fresh c = record { client = c; locked = false; order = []; answers = [] }
