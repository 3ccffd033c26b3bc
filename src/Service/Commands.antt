-- ===== src/Service/Commands.antt =====
-- What a command is answered (handleCommand and its helpers, internal/pkg/service/service.go).
use app_modbus_go.Prelude.{
  ℕ, ◌≡◌, refl, sym, ◌∙◌, inl, inr, String, false, Option, none, some, List, [], ◌∷◌, if◌then◌else◌,
  Bool-cases, Option-cases,
}
use app_modbus_go.Prelude.Int.{ℤ, pos, ℤ_eq}
use app_modbus_go.Prelude.Eq.{String_eq, ◌==◌}
use app_modbus_go.Prelude.Dict.{Dict, lookup}
use app_modbus_go.Value.{Floats, Value}
use app_modbus_go.Resource.{NorthResource, ResourceMapping, DeviceMapping}
use app_modbus_go.Cache.{CachedData, fresh}
use app_modbus_go.Run.{returned}
use app_modbus_go.Json.{Number, Json, ◌>>=◌}
use app_modbus_go.Message.{
  CommandContent, CommandPayload, CommandResponsePayload, command_response, MqttMessage,
  MqttResponse, received, new_response, type_command,
}
use app_modbus_go.Message.Encode.{tree_of, response_to_json}
use app_modbus_go.Message.Extract.{get_command_payload}
use app_modbus_go.Mapping.{MappingManager, update_cache, get_device_mapping, get_cached_value}
use app_modbus_go.Mapping.Claims.{resources_have_nil}
use app_modbus_go.Mapping.Reached.{Reached, reached-IsWellFormed}
use app_modbus_go.Mapping.Sensor.{last_write, update_cache_lem}
use app_modbus_go.Client.{ClientManager, to_request, on_message}
use app_modbus_go.Client.Routing.{on_message-response}
use app_modbus_go.Service.{
  respond, get_response, find_resource, handle_get_command, handle_put_command, run_command,
  handle_command,
}

module _ {fl : Floats} where
  -- The first resource of a name among those with a north side.
  abbrev pub first_named : String → List (Option (ResourceMapping fl)) → Option (NorthResource fl)
  first_named name [] = none
  first_named name (none ∷ rms) = first_named name rms
  first_named name (some rm ∷ rms) = elim rm.north_resource [
    | none ↦ first_named name rms
    | some north ↦ if north.name == name then some north else first_named name rms
  ]

  -- What a GET is for: the value in the cache of the first resource of that name.
  abbrev pub reading : ℕ → MappingManager fl → CommandContent → Option (CachedData fl)
  reading now m c = do
    dm ← lookup c.north_device_name m.device_mappings
    north ← first_named c.north_resource_name dm.resources
    get_cached_value now north.address m

  -- The status of a command: 200 for a PUT and for a GET with a value, 404 for a GET without one, 400
  -- for all else.
  abbrev pub status : ℕ → MappingManager fl → CommandPayload → ℤ
  status now m p =
      if p.cmd_type == "GET"
      then elim (reading now m p.cmd_content) [ none ↦ pos 404 | some d ↦ pos 200 ]
      else if p.cmd_type == "PUT"
      then pos 200
      else pos 400

  -- What an answer tells of its command.
  pub record Answers (now : ℕ) (m : MappingManager fl) (p : CommandPayload)
      (a : CommandResponsePayload) : Type 0 where
    pub same_type : a.cmd_type ≡ p.cmd_type
    pub by_status : a.status_code ≡ status now m p
    pub same_device : a.cmd_content.north_device_name ≡ p.cmd_content.north_device_name
    pub same_resource : a.cmd_content.north_resource_name ≡ p.cmd_content.north_resource_name

module _ {fl : Floats} (show : Value fl → String) where
  find_resource_lem :
      (now : ℕ) (c : CommandContent) (m : MappingManager fl)
      (rms : List (Option (ResourceMapping fl)))
      → resources_have_nil rms ≡ false
      → find_resource show now c m rms
        ≡ returned (
            get_response show c (
              first_named c.north_resource_name rms
              >>= (λ north. get_cached_value now north.address m)))
  unfolding find_resource get_response
  find_resource_lem now c m [] h = refl
  find_resource_lem now c m (none ∷ rms) h = cc
  find_resource_lem now c m (some rm ∷ rms) h = elim (Option-cases rm.north_resource) [
    | inl alone ↦ rw (alone, find_resource) (find_resource_lem now c m rms h)
    | inr (north, e) ↦ elim (Bool-cases (north.name == c.north_resource_name)) [
      | inl same ↦ rw (e, find_resource, same) refl
      | inr other ↦ rw (e, find_resource, other) (find_resource_lem now c m rms h)
    ]
  ]

  -- A GET to a manager that the program can come to never panics: it is answered 200 with the printed
  -- value where the device is known and its first resource of the name has a value in the cache
  -- that has not expired, and 404 otherwise.
  pub handle_get_command_lem :
      (now : ℕ) (m : MappingManager fl) (p : CommandPayload)
      → Reached m
      → handle_get_command show now m p
        ≡ returned (elim (reading now m p.cmd_content) [
          | none ↦ respond "GET" (pos 404) p.cmd_content ""
          | some d ↦ respond "GET" (pos 200) p.cmd_content (show d.value)
        ])
  unfolding handle_get_command get_device_mapping get_response
  handle_get_command_lem now m p r =
      elim (Option-cases (lookup p.cmd_content.north_device_name m.device_mappings)) [
        | inl unknown ↦ rw (handle_get_command, get_device_mapping, unknown) refl
        | inr (dm, known) ↦
            rw (handle_get_command, get_device_mapping, known)
              (find_resource_lem now p.cmd_content m dm.resources
                ((reached-IsWellFormed m r).complete p.cmd_content.north_device_name dm known).0)
      ]

  run_command-Answers :
      (now : ℕ) (m : MappingManager fl) (p : CommandPayload)
      → Reached m
      → (a : CommandResponsePayload) × (run_command show now m p ≡ returned a) × Answers now m p a
  unfolding run_command handle_put_command
  run_command-Answers now m p r = elim (Bool-cases (p.cmd_type == "GET")) [
    | inl get ↦ elim (Option-cases (reading now m p.cmd_content)) [
      | inl nil ↦ (
        respond "GET" (pos 404) p.cmd_content "",
        rw (run_command, get) (handle_get_command_lem now m p r ∙ rw nil refl),
        record {
          same_type = sym ((String_eq.agree_iff p.cmd_type "GET").0 get);
          by_status = rw (get, nil) refl;
          same_device = refl;
          same_resource = refl;
        },
      )
      | inr (d, there) ↦ (
        respond "GET" (pos 200) p.cmd_content (show d.value),
        rw (run_command, get) (handle_get_command_lem now m p r ∙ rw there refl),
        record {
          same_type = sym ((String_eq.agree_iff p.cmd_type "GET").0 get);
          by_status = rw (get, there) refl;
          same_device = refl;
          same_resource = refl;
        },
      )
    ]
    | inr no_get ↦ elim (Bool-cases (p.cmd_type == "PUT")) [
      | inl put ↦ (
        respond "PUT" (pos 200) p.cmd_content p.cmd_content.north_resource_value,
        rw (run_command, no_get, put, handle_put_command) refl,
        record {
          same_type = sym ((String_eq.agree_iff p.cmd_type "PUT").0 put);
          by_status = rw (no_get, put) refl;
          same_device = refl;
          same_resource = refl;
        },
      )
      | inr no_put ↦ (
        respond p.cmd_type (pos 400) p.cmd_content "",
        rw (run_command, no_get, no_put) refl,
        record {
          same_type = refl;
          by_status = rw (no_get, no_put) refl;
          same_device = refl;
          same_resource = refl;
        },
      )
    ]
  ]

  module _ (again : fl.F64 → Number fl) (marshal : Value fl → Option (Json fl)) where
    -- A message of type 6 whose payload is a command, to a manager that the program can come to: one
    -- response is published, of type 6 with code 200 and the id of the message, and its payload
    -- repeats the type, the device and the resource and has the status of the command.
    pub handle_command_lem :
        (now : ℕ) (today : ℤ) (msg : MqttMessage fl) (m : MappingManager fl) (p : CommandPayload)
        → Reached m
        → get_command_payload again marshal msg ≡ some p
        → (a : CommandResponsePayload) × (handle_command show again marshal now today msg m
            ≡ returned (
                some (
                  new_response today msg.request_id type_command
                    (pos 200)
                    "success"
                    (command_response a))))
          × Answers now m p a
    unfolding handle_command
    handle_command_lem now today msg m p r readable =
        let (a, run, answers) = run_command-Answers now m p r in
        (a, rw (handle_command, readable) (rw run refl), answers)

    -- The way of a command: where its sender, a client of the same kind, has the id of the message
    -- pending, the response that is published, once written, goes to the request that waits for it.
    pub command_round_trip :
        {M R : Type 0} (now : ℕ) (today : ℤ) (msg : MqttMessage fl) (m : MappingManager fl)
        (p : CommandPayload) (sender : ClientManager M R) (ch : ℕ)
        → Reached m
        → get_command_payload again marshal msg ≡ some p
        → lookup msg.request_id sender.pending_requests ≡ some ch
        → (resp : MqttResponse fl) × (j : Json fl) × (payload : Json fl) × (handle_command show
              again marshal now today msg m
            ≡ returned (some resp))
          × (response_to_json again marshal resp ≡ some j)
          × (tree_of again marshal resp.payload ≡ some payload)
          × (on_message (some j) sender
              ≡ to_request ch (record resp { payload = received payload }))
    unfolding response_to_json tree_of new_response
    command_round_trip now today msg m p sender ch r readable waits =
        let (a, run, answers) = handle_command_lem now today msg m p r readable in
        let resp =
          new_response today msg.request_id type_command (pos 200) "success" (command_response a) in
        let (j, payload, written, tree) : (j : Json fl) × (payload : Json fl) × (response_to_json
                again marshal resp
              ≡ some j)
            × (tree_of again marshal resp.payload ≡ some payload) =
          (_, _, refl, refl) in
        (
          resp,
          j,
          payload,
          run,
          written,
          tree,
          on_message-response again marshal sender resp j payload refl tree written ∙ rw waits refl,
        )

  -- The way of a value: sensor data of a known device are stored, and a GET of a resource whose address
  -- they wrote is answered with the value last written there, printed, while it has not expired.
  pub sensor_get :
      (clock : ℕ → ℕ) (values : Dict String (Value fl)) (now : ℕ) (m : MappingManager fl)
      (p : CommandPayload) (dm : DeviceMapping fl) (north : NorthResource fl) (d : CachedData fl)
      → Reached m
      → lookup p.cmd_content.north_device_name m.device_mappings ≡ some dm
      → first_named p.cmd_content.north_resource_name dm.resources ≡ some north
      → last_write clock p.cmd_content.north_device_name values m.cache.default_ttl north.address 0
          dm.resources
        ≡ some d
      → fresh now (some d) ≡ some d
      → (m' : MappingManager fl) × (update_cache clock p.cmd_content.north_device_name values m
          ≡ returned (some m'))
        × (handle_get_command show now m' p
            ≡ returned (respond "GET" (pos 200) p.cmd_content (show d.value)))
  sensor_get clock values now m p dm north d r known named written lasts =
      let device = p.cmd_content.north_device_name in
      let complete = ((reached-IsWellFormed m r).complete device dm known).0 in
      let (m', run, devices, addresses, reads) =
        update_cache_lem clock device values m dm known complete in
      let there : get_cached_value now north.address m' ≡ some d =
        reads now north.address ∙ rw written lasts in
      let r' : Reached m' = Reached.stored clock device values m m' r run in
      (m', run, handle_get_command_lem now m' p r' ∙ rw (devices, known) (rw named (rw there refl)))
