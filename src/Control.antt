-- ===== src/Control.antt =====
-- iec61850/iec61850_control.go: the cache of control objects and the three direct operates.
pub mod Balance
pub mod Direct
pub mod Operate
pub mod IntegerCheck
pub mod Texts
pub mod Mutex
use go_libiec.Prelude.{
  ℕ, String, Bool, true, false, Option, none, some, List, [], ◌∷◌, Dict, lookup, insert,
  if◌then◌else◌, ◌⊎◌, inl, inr,
}
use go_libiec.Mms.Types.{MmsType, mms_integer}
use go_libiec.Client.Errors.{IedClientError}

-- What is written into the `ctlVal`; numbers are the patterns of 32 bits.
pub data CtlVal : Type 0 where
  boolean : Bool → CtlVal
  int32 float32 : ℕ → CtlVal

-- The calls of libiec61850, with the answers on which the code depends. A `ControlObjectClient` and
-- an `MmsValue *` are known by a number; `none` is NULL. The last six are the calls on the
-- connection itself.
pub data Event : Type 0 where
  create : String → Option ℕ → Event
  destroy : ℕ → Event
  new_value : CtlVal → Option ℕ → Event
  delete_value : ℕ → Event
  set_value : ℕ → CtlVal → Event
  set_origin : ℕ → ℕ → Event
  operate : ℕ → ℕ → Bool → Event
  create_connection close_connection destroy_connection : Event
  set_connect_timeout set_request_timeout : ℕ → Event
  connect : String → ℕ → IedClientError → Event

-- The answers of the library (iec61850/inc/iec61850/inc/iec61850_client.h), which may depend on all
-- the calls before, the last one first.
pub record ControlApi : Type 0 where
  pub created : List Event → String → Option ℕ
  pub get_ctl_val_type : List Event → ℕ → MmsType
  pub allocated : List Event → CtlVal → Option ℕ
  pub operated : List Event → ℕ → ℕ → Bool
  pub get_last_error : List Event → ℕ → IedClientError

-- `cachedControl`
pub record CachedControl : Type 0 where
  pub ctrl : ℕ
  pub ctl_reuse : Option ℕ

-- The client: `controlCache`, `none` for a nil map, and the calls it has made.
pub record Client : Type 0 where
  pub control_cache : Option (Dict CachedControl)
  pub log : List Event

-- The entries; a nil map has none.
abbrev pub entries : Option (Dict CachedControl) → Dict CachedControl
entries none = []
entries (some d) = d

pub data ControlError : Type 0 where
  create_failed : String → ControlError
  wrong_type : String → MmsType → ControlError
  new_failed : String → ControlError
  operate_failed : String → IedClientError → ControlError

-- The calls that `clearControlObjectCache` makes for one entry.
abbrev pub release_value : Option ℕ → List Event → List Event
release_value none log = log
release_value (some v) log = delete_value v ∷ log

unfoldable pub release : Dict CachedControl → List Event → List Event
release [] log = log
release ((k, e) ∷ d) log = release d (destroy e.ctrl ∷ release_value e.ctl_reuse log)

-- `clearControlObjectCache`; the list has the order in which Go walks the map.
unfoldable pub clear_control_object_cache : Client → Client
clear_control_object_cache c = record {
  control_cache = none;
  log = release (entries c.control_cache) c.log;
}

abbrev pub is_integer : MmsType → Bool
is_integer mms_integer = true
is_integer _ = false

module _ (a : ControlApi) where
  -- `getOrCreateControlEntryLocked` with a control object that the library has created, and its type.
  unfoldable pub accept :
      String → Bool → Client → ℕ → MmsType → (ControlError ⊎ CachedControl) × Client
  accept ref require c ctrl got =
      let refused : (ControlError ⊎ CachedControl) × Client =
        (inl (wrong_type ref got), record c { log = destroy ctrl ∷ c.log }) in
      let e : CachedControl = record { ctrl = ctrl; ctl_reuse = none } in
      let kept : (ControlError ⊎ CachedControl) × Client =
        (inr e, record c { control_cache = some (insert ref e (entries c.control_cache)) }) in
      if require then if is_integer got then kept else refused else kept

  -- The answer of `ControlObjectClient_create`.
  unfoldable pub on_create :
      String → Bool → Client → Option ℕ → (ControlError ⊎ CachedControl) × Client
  unfolding accept
  on_create ref require c none = (inl (create_failed ref), c)
  on_create ref require c (some ctrl) = accept ref require c ctrl (a.get_ctl_val_type c.log ctrl)

  unfoldable pub on_lookup :
      String → Bool → Client → Option CachedControl → (ControlError ⊎ CachedControl) × Client
  unfolding on_create
  on_lookup ref require c (some e) = (inr e, c)
  on_lookup ref require c none =
      let answer = a.created c.log ref in
      on_create ref require (record c { log = create ref answer ∷ c.log }) answer

  -- `getOrCreateControlEntryLocked`
  unfoldable pub get_or_create : String → Bool → Client → (ControlError ⊎ CachedControl) × Client
  unfolding on_lookup
  get_or_create ref require c =
      on_lookup ref require (record c { control_cache = some (entries c.control_cache) })
        (lookup ref (entries c.control_cache))

  -- From the `MmsValue` on: set it, set the origin, operate.
  unfoldable pub send : String → CtlVal → ℕ → ℕ → Client → Option ControlError × Client
  send ref x ctrl v c =
      let log1 = set_origin ctrl 3 ∷ set_value v x ∷ c.log in
      let ok = a.operated log1 ctrl v in
      let log2 = operate ctrl v ok ∷ log1 in
      (
        (if ok then none else some (operate_failed ref (a.get_last_error log2 ctrl))),
        record c { log = log2 },
      )

  -- The answer of the constructor of the reusable value, which the entry of the cache keeps.
  unfoldable pub on_new : String → CtlVal → ℕ → Client → Option ℕ → Option ControlError × Client
  unfolding send
  on_new ref x ctrl c none = (some (new_failed ref), c)
  on_new ref x ctrl c (some v) =
      let e : CachedControl = record { ctrl = ctrl; ctl_reuse = some v } in
      send ref x ctrl v (record c { control_cache = some (insert ref e (entries c.control_cache)) })

  -- The values with which `MmsValue_newBoolean`, `…newIntegerFromInt32` and `…newFloat` are called.
  abbrev pub initial : CtlVal → CtlVal
  initial (boolean b) = boolean false
  initial (int32 n) = int32 0
  initial (float32 n) = float32 0

  unfoldable pub with_value : String → CtlVal → Client → ℕ → Option ℕ → Option ControlError × Client
  unfolding on_new
  with_value ref x c ctrl (some v) = send ref x ctrl v c
  with_value ref x c ctrl none =
      let answer = a.allocated c.log (initial x) in
      on_new ref x ctrl (record c { log = new_value (initial x) answer ∷ c.log }) answer

  unfoldable pub with_entry :
      String → CtlVal → (ControlError ⊎ CachedControl) × Client → Option ControlError × Client
  unfolding with_value
  with_entry ref x (inl err, c) = (some err, c)
  with_entry ref x (inr e, c) = with_value ref x c e.ctrl e.ctl_reuse

  -- `DirectWithNormalSecurity`, `DirectWithNormalSecurityInt32` and `DirectWithNormalSecurityFloat32`
  unfoldable pub direct_with_normal_security : String → Bool → Client → Option ControlError × Client
  unfolding get_or_create with_entry
  direct_with_normal_security ref val c = with_entry ref (boolean val) (get_or_create ref false c)

  unfoldable pub direct_with_normal_security_int32 :
      String → ℕ → Client → Option ControlError × Client
  unfolding get_or_create with_entry
  direct_with_normal_security_int32 ref val c =
      with_entry ref (int32 val) (get_or_create ref true c)

  unfoldable pub direct_with_normal_security_float32 :
      String → ℕ → Client → Option ControlError × Client
  unfolding get_or_create with_entry
  direct_with_normal_security_float32 ref val c =
      with_entry ref (float32 val) (get_or_create ref false c)
