-- ===== src/Service/Lifecycle/Running.antt =====
-- What Run leaves running (internal/pkg/service/service.go).
use app_modbus_go.Prelude.{
  ℕ, ◌≡◌, refl, sym, ap, ◌∙◌, inl, inr, String, Bool, true, false, Option, none, some, List,
  Bool-cases, Option-cases,
}
use app_modbus_go.Prelude.Int.{ℤ, pos, ltb_ℤ, eqb_ℤ, ℤ_eq}
use app_modbus_go.Prelude.Eq.{String_eq}
use app_modbus_go.Prelude.Dict.{lookup, insert}
use app_modbus_go.Value.{Floats, Value}
use app_modbus_go.Run.{Run, returned, panicked, out_of_fuel, ◌>>=◌}
use app_modbus_go.Json.{Number, Json}
use app_modbus_go.Config.{
  AppConfig, load_config, default_config, get_default_ttl, get_interval, get_cleanup_interval,
  validate,
}
use app_modbus_go.Config.Accepted.{Complete, validate-Complete}
use app_modbus_go.Config.Connection.{text_or_nonempty}
use app_modbus_go.Message.{MqttResponse}
use app_modbus_go.Message.Extract.{get_query_device_response}
use app_modbus_go.Cache
use app_modbus_go.Mapping.{MappingManager, new_mapping_manager, set_handler, update_mappings}
use app_modbus_go.Mapping.Claims.{update_mappings_lem}
use app_modbus_go.Mapping.WellFormed.{returned_complete}
use app_modbus_go.Mapping.Handlers.{query_device_attributes, handle_query_response, start_cleanup}
use app_modbus_go.Client.{
  client_options, new_client_manager, register_message_handler, register_response_handler, connect,
  start_heartbeat,
}
use app_modbus_go.Server.Lifecycle
use app_modbus_go.Server.Lifecycle.{Listener, ModbusServer, new_modbus_server}
use app_modbus_go.Service.{DeviceMapping, register_mqtt_handlers}
use app_modbus_go.Service.Lifecycle.{
  client_config, AppService, Outside, started, serving, initialize, run, serve, start_server,
  connect_and_serve, or_default,
}
use app_modbus_go.Service.Lifecycle.Stopping.{Serves}

default_config-Complete : Complete default_config
unfolding default_config
default_config-Complete = (
  refl,
  refl,
  inl refl,
  text_or_nonempty "30s" "30s" refl,
  text_or_nonempty "5m" "5m" refl,
  text_or_nonempty "2m" "2m" refl,
  text_or_nonempty "10s" "10s" refl,
  text_or_nonempty "DEBUG" "DEBUG" refl,
  text_or_nonempty "localhost" "localhost" refl,
  refl,
)

-- The configuration that Initialize takes is a complete one, whatever the file gives.
module _ (file : Option AppConfig) where
  abbrev pub used : AppConfig
  used = or_default default_config (load_config file)

  used-Complete : Complete used
  unfolding load_config
  used-Complete = go file
    where
      go : (file : Option AppConfig) → Complete (or_default default_config (load_config file))
      go none = default_config-Complete
      go (some c) = elim (Option-cases (validate c).1) [
        | inl fine ↦ rw (load_config, fine) (validate-Complete c fine).0
        | inr (e, refused) ↦ rw (load_config, refused) default_config-Complete
      ]

module _ {fl : Floats} (parse_duration : String → Option ℤ) (again : fl.F64 → Number fl)
    (marshal : Value fl → Option (Json fl)) (tag : Json fl → ℕ) where
  -- The answer of the query leaves the cache as it was.
  query-cache :
      (answer : Option (MqttResponse fl)) (m m' : MappingManager fl)
      → query_device_attributes again marshal tag answer m ≡ returned (some m')
      → m'.cache ≡ m.cache
  unfolding query_device_attributes handle_query_response
  query-cache none m m' h = cc
  query-cache (some resp) m m' h = elim (Bool-cases (eqb_ℤ resp.code (pos 200))) [
    | inr refused ↦
        absurd (nothing (returned none) refl (rw (query_device_attributes, refused) at h))
    | inl fine ↦ elim (Option-cases (get_query_device_response again marshal tag resp)) [
      | inl nil ↦ absurd (
          nothing (returned none) refl
            (rw (query_device_attributes, fine) (rw (handle_query_response, nil) refl) ∙ h))
      | inr (q, readable) ↦
          by_update q.result (update_mappings q.result m) refl
            (rw (query_device_attributes, fine) (rw (handle_query_response, readable) refl) ∙ h)
    ]
  ]
    where
      nothing :
          (r : Run (Option (MappingManager fl))) → r ≡ returned none → r ≡ returned (some m') → ⊥
      nothing r e e' = cc

      the_same : (a b : MappingManager fl) → returned (some a) ≡ returned (some b) → a ≡ b
      the_same a b e = cc

      the_result : (a b : MappingManager fl) → returned a ≡ returned b → a ≡ b
      the_result a b e = cc

      by_update :
          (dms : List (Option (DeviceMapping fl))) (r : Run (MappingManager fl))
          → update_mappings dms m ≡ r
          → (r >>= (λ x. returned (some x))) ≡ returned (some m')
          → m'.cache ≡ m.cache
      by_update dms (returned x) e e' =
          let (y, run, addresses, devices, kept, handler) =
            update_mappings_lem dms m (returned_complete dms m x e) in
          ap (λ z. z.cache) (sym (the_same x m' e') ∙ the_result x y (sym e ∙ run)) ∙ kept
      by_update dms panicked e e' = cc
      by_update dms out_of_fuel e e' = cc

  query_keeps :
      (answer : Option (MqttResponse fl)) (m : MappingManager fl)
      (queried : Option (MappingManager fl))
      → query_device_attributes again marshal tag answer m ≡ returned queried
      → (or_default m queried).cache ≡ m.cache
  query_keeps answer m none h = refl
  query_keeps answer m (some m') h = query-cache answer m m' h

  start-Complete :
      (listens : Listener → Bool) (c : AppConfig)
      → Complete c
      → ((l : Listener) → listens l ≡ true)
      → ((Lifecycle.start listens (new_modbus_server c.modbus)).1 ≡ none)
        × ((Lifecycle.start listens (new_modbus_server c.modbus)).0.running ≡ true)
  unfolding Lifecycle.start Lifecycle.listen new_modbus_server
  start-Complete listens c complete opens = elim complete.2 [
    | inl tcp ↦
        rw (Lifecycle.start, tcp) (rw (opens (Lifecycle.tcp_listener c.modbus)) (refl, refl))
    | inr rtu ↦
        rw (Lifecycle.start, rtu) (rw (opens (Lifecycle.rtu_listener c.modbus)) (refl, refl))
  ]

  -- Where the broker takes the connection with the options of the configuration and the subscription, every listener opens, and the intervals
  -- of the heartbeat and of the cleanup are positive, Run after Initialize comes to serve,
  -- whatever the file of the configuration gives, and whether or not the query of the devices is
  -- answered, as long as no nil pointer in its answer makes the program panic: the Modbus server runs, the
  -- handlers of pushes, sensor data, commands and the answers to heartbeats are registered, and the heartbeat, the cleanup and the
  -- forward log are not stopped.
  pub run-Serves :
      (path : String) (file : Option AppConfig) (outside : Outside fl) (s : AppService fl)
      (queried : Option (MappingManager fl))
      → outside.connects (client_options (client_config (used file).mqtt)) ≡ true
      → outside.subscribes ≡ true
      → ((l : Listener) → outside.listens l ≡ true)
      → ltb_ℤ (pos 0) (get_interval parse_duration (used file).heartbeat) ≡ true
      → ltb_ℤ (pos 0) (get_cleanup_interval parse_duration (used file).cache) ≡ true
      → query_device_attributes again marshal tag outside.answer
          (set_handler (new_mapping_manager (get_default_ttl parse_duration (used file).cache)))
        ≡ returned queried
      → (s' : AppService fl) × (run parse_duration again marshal tag outside
            (initialize parse_duration path file s)
          ≡ returned (s', serving))
        × Serves s'
  unfolding initialize run connect_and_serve serve start_server start_heartbeat start_cleanup
      connect register_mqtt_handlers register_message_handler register_response_handler
      new_client_manager insert lookup set_handler new_mapping_manager Cache.new_cache
  run-Serves path file outside s queried connects subscribes opens beats cleans answered =
      let config = used file in
      let m₀ : MappingManager fl =
        set_handler (new_mapping_manager (get_default_ttl parse_duration config.cache)) in
      let (no_error, up) = start-Complete outside.listens config (used-Complete file) opens in
      let v = (Lifecycle.start outside.listens (new_modbus_server config.modbus)).0 in
      let client =
        record (register_mqtt_handlers
          (connect outside.connects (client_config config.mqtt)
            (new_client_manager config.node_id)).0) { heartbeat_stop = some false } in
      (
        record (initialize parse_duration path file s) {
          mqtt_client = some client;
          map_manage = some (or_default m₀ queried);
          mdbs_server = some v;
          forward_log_mgr = some started;
        },
        rw (connect_and_serve, connects, subscribes)
            (rw (serve, answered)
              (rw (start_heartbeat, beats) (rw (start_cleanup, cleans) (rw no_error refl)))),
        record {
          client = client;
          the_client = refl;
          beats = refl;
          handles = (refl, refl, refl, refl);
          manager = or_default m₀ queried;
          the_manager = refl;
          cleans = ap (λ c. c.stopped) (query_keeps outside.answer m₀ queried answered);
          server = v;
          the_server = refl;
          listens = up;
          forwards = refl;
          live = refl;
        },
      )
