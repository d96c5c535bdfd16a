-- ===== src/Client/Connection/Close.antt =====
-- The life of a client (iec61850/iec61850_client.go, iec61850/iec61850_control.go) from
-- `NewIedClient` over options, connects, operates and clearings of the cache to `Close`. The reads, data
-- sets, subscriptions, browsing and `State` are not among the steps: their calls are not in this log.
use go_libiec.Prelude.{
  ℕ, String, Bool, true, false, Option, none, some, List, [], ◌∷◌, ◌≡◌, refl, ◌∙◌, arith,
}
use go_libiec.Prelude.Int.{ℤ}
use go_libiec.Control.{
  Event, set_connect_timeout, set_request_timeout, connect, close_connection, destroy_connection,
  ControlApi, release, entries, boolean, int32, float32, clear_control_object_cache,
  direct_with_normal_security, direct_with_normal_security_int32,
  direct_with_normal_security_float32,
}
use go_libiec.Control.Balance.{
  Handle, control_handle, value_handle, IsBalanced, tally, opened, closed,
  clear_control_object_cache-released,
}
use go_libiec.Control.Direct.{direct_with_normal_security-IsBalanced}
use go_libiec.Client.Errors.{IedClientError}
use go_libiec.Client.Connection.{
  IedClient, ConnectionApi, ClientOption, connect_timeout, request_timeout, without_timestamps,
  call, timeout_ms, no_client, apply_options, apply_option, new_ied_client, ied_connection_create,
  ied_connection_connect, ied_connection_close, ied_connection_destroy, connect_client, close,
}
use go_libiec.Client.Connection.Quiet.{ended, operate-ended, release-ended}

module _ (a : ControlApi) (k : ConnectionApi) where
  -- The calls that change the cache of controls or the log.
  pub data Step : IedClient → IedClient → Type 0 where
    connecting :
        (c : IedClient) (host : String) (port : ℤ) → Step c (connect_client k host port c).1
    operating :
        (c : IedClient) (ref : String) (val : Bool)
        → Step c (record c { control = (direct_with_normal_security a ref val c.control).1 })
    operating_int32 :
        (c : IedClient) (ref : String) (val : ℕ)
        → Step c (record c { control = (direct_with_normal_security_int32 a ref val c.control).1 })
    operating_float32 :
        (c : IedClient) (ref : String) (val : ℕ)
        → Step c
            (record c { control = (direct_with_normal_security_float32 a ref val c.control).1 })
    setting : (c : IedClient) (o : ClientOption) → Step c (apply_option o c)
    clearing :
        (c : IedClient) → Step c (record c { control = clear_control_object_cache c.control })

  -- The clients that have not been closed.
  pub data Reach : IedClient → Type 0 where
    start : (os : List (Option ClientOption)) → Reach (new_ied_client os)
    later : {c d : IedClient} → Reach c → Step c d → Reach d

  -- Every object is released or in the cache, and the connection is neither closed nor destroyed.
  record IsLive (c : IedClient) : Type 0 where
    balanced : (h : Handle) → IsBalanced h c.control
    open_still : ended c.control.log ≡ 0

  -- A call on the connection that is of no object and does not end it.
  call-IsLive :
      (e : Event) (c : IedClient)
      → ((h : Handle) → (opened h e ≡ 0) × (closed h e ≡ 0))
      → ended (e ∷ c.control.log) ≡ ended c.control.log
      → IsLive c
      → IsLive (call e c)
  call-IsLive e c idle same l = record {
    balanced = λ h. omega (arith, (idle h).0, (idle h).1, l.balanced h);
    open_still = same ∙ l.open_still;
  }

  idle_set_connect_timeout :
      (t : ℕ) (h : Handle)
      → (opened h (set_connect_timeout t) ≡ 0) × (closed h (set_connect_timeout t) ≡ 0)
  idle_set_connect_timeout t (control_handle n) = (refl, refl)
  idle_set_connect_timeout t (value_handle n) = (refl, refl)

  idle_set_request_timeout :
      (t : ℕ) (h : Handle)
      → (opened h (set_request_timeout t) ≡ 0) × (closed h (set_request_timeout t) ≡ 0)
  idle_set_request_timeout t (control_handle n) = (refl, refl)
  idle_set_request_timeout t (value_handle n) = (refl, refl)

  idle_connect :
      (host : String) (port : ℕ) (e : IedClientError) (h : Handle)
      → (opened h (connect host port e) ≡ 0) × (closed h (connect host port e) ≡ 0)
  idle_connect host port e (control_handle n) = (refl, refl)
  idle_connect host port e (value_handle n) = (refl, refl)

  apply_option-IsLive : (o : ClientOption) (c : IedClient) → IsLive c → IsLive (apply_option o c)
  unfolding apply_option
  apply_option-IsLive (connect_timeout t) c l =
      call-IsLive (set_connect_timeout (timeout_ms t)) c (idle_set_connect_timeout _) refl l
  apply_option-IsLive (request_timeout t) c l =
      call-IsLive (set_request_timeout (timeout_ms t)) c (idle_set_request_timeout _) refl l
  apply_option-IsLive (without_timestamps flag) c l = record {
    balanced = l.balanced;
    open_still = l.open_still;
  }

  apply_options-IsLive :
      (os : List (Option ClientOption)) (c : IedClient) → IsLive c → IsLive (apply_options os c)
  unfolding apply_options
  apply_options-IsLive [] c l = l
  apply_options-IsLive (none ∷ os) c l = apply_options-IsLive os c l
  apply_options-IsLive (some o ∷ os) c l =
      apply_options-IsLive os (apply_option o c) (apply_option-IsLive o c l)

  ied_connection_create-IsBalanced :
      (h : Handle) → IsBalanced h (ied_connection_create no_client).control
  unfolding ied_connection_create
  ied_connection_create-IsBalanced (control_handle n) = refl
  ied_connection_create-IsBalanced (value_handle n) = refl

  new_ied_client-IsLive : (os : List (Option ClientOption)) → IsLive (new_ied_client os)
  unfolding new_ied_client ied_connection_create
  new_ied_client-IsLive os =
      apply_options-IsLive os (ied_connection_create no_client)
        (record { balanced = ied_connection_create-IsBalanced; open_still = refl })

  Step-IsLive : {c d : IedClient} → Step c d → IsLive c → IsLive d
  unfolding connect_client ied_connection_connect direct_with_normal_security
      direct_with_normal_security_int32 direct_with_normal_security_float32
      clear_control_object_cache
  Step-IsLive (connecting c host port) l =
      call-IsLive (connect host _ _) c (idle_connect _ _ _) refl l
  Step-IsLive (operating c ref val) l = record {
    balanced = λ h. (direct_with_normal_security-IsBalanced a h ref c.control (l.balanced h)).0 val;
    open_still = operate-ended a ref (boolean val) false c.control ∙ l.open_still;
  }
  Step-IsLive (operating_int32 c ref val) l = record {
    balanced = λ h. (direct_with_normal_security-IsBalanced a h ref c.control (l.balanced h)).1 val;
    open_still = operate-ended a ref (int32 val) true c.control ∙ l.open_still;
  }
  Step-IsLive (operating_float32 c ref val) l = record {
    balanced = λ h. (direct_with_normal_security-IsBalanced a h ref c.control (l.balanced h)).2 val;
    open_still = operate-ended a ref (float32 val) false c.control ∙ l.open_still;
  }
  Step-IsLive (setting c o) l = apply_option-IsLive o c l
  Step-IsLive (clearing c) l = record {
    balanced =
        λ h. omega (arith, (clear_control_object_cache-released h c.control (l.balanced h)).0);
    open_still = release-ended (entries c.control.control_cache) c.control.log ∙ l.open_still;
  }

  Reach-IsLive : {c : IedClient} → Reach c → IsLive c
  Reach-IsLive (start os) = new_ied_client-IsLive os
  Reach-IsLive (later r st) = Step-IsLive st (Reach-IsLive r)

  -- However a client was connected, given options, operated by the three operates and had its cache
  -- cleared between `NewIedClient` and `Close`, the last two calls of `Close` close and destroy the
  -- connection. Before them the connection was neither closed nor destroyed, and
  -- every control object and every value of the library was released as often as it was created.
  -- Afterwards the cache of controls is nil.
  pub close-released :
      {c : IedClient} (h : Handle)
      → Reach c
      → (log : List Event) × ((close c).control.log ≡ destroy_connection ∷ close_connection ∷ log)
        × (ended log ≡ 0)
        × (tally (opened h) log ≡ tally (closed h) log)
        × ((close c).control.control_cache ≡ none)
  unfolding close clear_control_object_cache ied_connection_close ied_connection_destroy
  close-released {c} h r =
      let live = Reach-IsLive r in
      let cleared = clear_control_object_cache-released h c.control (live.balanced h) in
      (
        release (entries c.control.control_cache) c.control.log,
        refl,
        release-ended (entries c.control.control_cache) c.control.log ∙ live.open_still,
        cleared.0,
        refl,
      )
