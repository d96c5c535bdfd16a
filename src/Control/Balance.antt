-- ===== src/Control/Balance.antt =====
-- The library's objects that the control operations of iec61850/iec61850_control.go create and
-- release.
use go_libiec.Prelude.{
  ℕ, ◌+◌, String, Bool, Option, none, some, List, [], ◌∷◌, Dict, lookup, insert, ◌≡◌, refl, ◌∙◌,
  ◌==◌, str_eq, if◌then◌else◌, inl, inr, arith, Bool-cases,
}
use go_libiec.Control.{
  CtlVal, Event, create, destroy, new_value, delete_value, set_value, set_origin, operate,
  CachedControl, Client, entries, release_value, release, clear_control_object_cache,
}

-- An object of the library: a control object or a value.
pub data Handle : Type 0 where
  control_handle value_handle : ℕ → Handle

abbrev bit : Bool → ℕ
bit b = if b then 1 else 0

-- How often a call creates or releases the object, and how often an entry of the cache holds it.
abbrev pub opened : Handle → Event → ℕ
opened (control_handle n) (create ref (some m)) = bit (m == n)
opened (value_handle n) (new_value x (some m)) = bit (m == n)
opened h e = 0

abbrev pub closed : Handle → Event → ℕ
closed (control_handle n) (destroy m) = bit (m == n)
closed (value_handle n) (delete_value m) = bit (m == n)
closed h e = 0

abbrev pub owns : Handle → CachedControl → ℕ
owns (control_handle n) e = bit (e.ctrl == n)
owns (value_handle n) e = elim e.ctl_reuse [ none ↦ 0 | some m ↦ bit (m == n) ]

abbrev pub tally : (Event → ℕ) → List Event → ℕ
tally f [] = 0
tally f (e ∷ log) = f e + tally f log

module _ {V : Type 0} (w : V → ℕ) where
  abbrev pub total : Dict V → ℕ
  total [] = 0
  total ((k, v) ∷ d) = w v + total d

  -- The weight of what a key has.
  abbrev pub weight : Option V → ℕ
  weight none = 0
  weight (some v) = w v

  pub total-insert :
      (k : String) (v : V) (d : Dict V) → total (insert k v d) + weight (lookup k d) ≡ total d + w v
  unfolding insert lookup
  total-insert k v [] = omega arith
  total-insert k v ((j, x) ∷ d) = elim (Bool-cases (str_eq j k)) [
    | inl same ↦ rw same (omega arith)
    | inr other ↦ rw other (omega (arith, total-insert k v d))
  ]

-- As often as the object was created, it was released or is held by the cache.
abbrev pub IsBalanced : Handle → Client → Type 0
IsBalanced h c =
    tally (opened h) c.log ≡ tally (closed h) c.log + total (owns h) (entries c.control_cache)

release-entry :
    (h : Handle) (c : ℕ) (o : Option ℕ) (log : List Event)
    → (tally (closed h) (destroy c ∷ release_value o log)
        ≡ owns h (record { ctrl = c; ctl_reuse = o }) + tally (closed h) log)
      × (tally (opened h) (destroy c ∷ release_value o log) ≡ tally (opened h) log)
release-entry (control_handle n) c none log = (omega arith, omega arith)
release-entry (control_handle n) c (some v) log = (omega arith, omega arith)
release-entry (value_handle n) c none log = (omega arith, omega arith)
release-entry (value_handle n) c (some v) log = (omega arith, omega arith)

release-closed :
    (h : Handle) (d : Dict CachedControl) (log : List Event)
    → (tally (closed h) (release d log) ≡ total (owns h) d + tally (closed h) log)
      × (tally (opened h) (release d log) ≡ tally (opened h) log)
unfolding release
release-closed h [] log = (omega arith, refl)
release-closed h ((k, e) ∷ d) log =
    let rest = release-closed h d (destroy e.ctrl ∷ release_value e.ctl_reuse log) in
    let one = release-entry h e.ctrl e.ctl_reuse log in
    (omega (arith, rest.0, one.0), rest.1 ∙ one.1)

-- Clearing the cache releases every object that the client holds: of a client whose objects were
-- released or held as often as created, every object has been released as often as created
-- afterwards, and the cache is a nil map.
pub clear_control_object_cache-released :
    (h : Handle) (c : Client)
    → IsBalanced h c
    → (tally (opened h) (clear_control_object_cache c).log
        ≡ tally (closed h) (clear_control_object_cache c).log)
      × ((clear_control_object_cache c).control_cache ≡ none)
unfolding clear_control_object_cache
clear_control_object_cache-released h c b =
    let r = release-closed h (entries c.control_cache) c.log in (omega (arith, r.0, r.1, b), refl)

-- What single calls create and release.
pub create-none :
    (h : Handle) (ref : String)
    → (opened h (create ref none) ≡ 0) × (closed h (create ref none) ≡ 0)
create-none (control_handle n) ref = (omega arith, omega arith)
create-none (value_handle n) ref = (omega arith, omega arith)

pub create-some :
    (h : Handle) (ref : String) (m : ℕ)
    → (opened h (create ref (some m)) ≡ owns h (record { ctrl = m; ctl_reuse = none }))
      × (closed h (create ref (some m)) ≡ 0)
create-some (control_handle n) ref m = (omega arith, omega arith)
create-some (value_handle n) ref m = (omega arith, omega arith)

pub destroy-owns :
    (h : Handle) (m : ℕ)
    → (opened h (destroy m) ≡ 0)
      × (closed h (destroy m) ≡ owns h (record { ctrl = m; ctl_reuse = none }))
destroy-owns (control_handle n) m = (omega arith, omega arith)
destroy-owns (value_handle n) m = (omega arith, omega arith)

pub new_value-none :
    (h : Handle) (y : CtlVal)
    → (opened h (new_value y none) ≡ 0) × (closed h (new_value y none) ≡ 0)
new_value-none (control_handle n) y = (omega arith, omega arith)
new_value-none (value_handle n) y = (omega arith, omega arith)

pub new_value-some :
    (h : Handle) (y : CtlVal) (m v : ℕ)
    → (opened h (new_value y (some v)) + owns h (record { ctrl = m; ctl_reuse = none })
        ≡ owns h (record { ctrl = m; ctl_reuse = some v }))
      × (closed h (new_value y (some v)) ≡ 0)
new_value-some (control_handle n) y m v = (omega arith, omega arith)
new_value-some (value_handle n) y m v = (omega arith, omega arith)

pub send-quiet :
    (h : Handle) (m v : ℕ) (x : CtlVal) (ok : Bool)
    → (opened h (operate m v ok) + (opened h (set_origin m 3) + opened h (set_value v x)) ≡ 0)
      × (closed h (operate m v ok) + (closed h (set_origin m 3) + closed h (set_value v x)) ≡ 0)
send-quiet (control_handle n) m v x ok = (omega arith, omega arith)
send-quiet (value_handle n) m v x ok = (omega arith, omega arith)
