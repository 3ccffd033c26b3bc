-- ===== src/Message/Extract.antt =====
-- How a payload is taken out of a message (internal/pkg/mqtt/message.go): it is written as JSON and
-- read into the struct of its type.
use app_modbus_go.Prelude.{ℕ, Option, none, some, if◌then◌else◌}
use app_modbus_go.Prelude.Int.{eqb_ℤ}
use app_modbus_go.Value.{Floats, Value}
use app_modbus_go.Resource.{NorthResource, SouthResource, ResourceMapping, DeviceMapping}
use app_modbus_go.Json.{
  Number, Json, ◌>>=◌, find, fields_of, decode_text, decode_bool, decode_float, decode_uint16,
  decode_pointer, decode_slice, decode_any, decode_map,
}
use app_modbus_go.Message.{
  type_query_device, type_device_attribute_push, type_sensor_data, type_command,
  QueryDeviceResponse, SensorDataPayload, CommandContent, CommandPayload, MqttMessage, MqttResponse,
}
use app_modbus_go.Message.Encode.{tree_of}

module _ {fl : Floats} where
  unfoldable pub decode_command_content : Json fl → Option CommandContent
  decode_command_content j = do
    fs ← fields_of j
    device ← decode_text (find "northDeviceName" fs)
    resource ← decode_text (find "northResourceName" fs)
    value ← decode_text (find "northResourceValue" fs)
    some (record {
      north_device_name = device;
      north_resource_name = resource;
      north_resource_value = value;
    })

  unfoldable pub decode_command : Json fl → Option CommandPayload
  unfolding decode_command_content
  decode_command j = do
    fs ← fields_of j
    cmd_type ← decode_text (find "cmdType" fs)
    content ← decode_command_content (find "cmdContent" fs)
    some (record { cmd_type = cmd_type; cmd_content = content })

  -- the Modbus address in the other parameters of a north resource
  unfoldable pub decode_address : Json fl → Option ℕ
  decode_address j = do
    parameters ← fields_of j
    modbus ← fields_of (find "modbus" parameters)
    decode_uint16 (find "address" modbus)

  unfoldable pub decode_north : Json fl → Option (NorthResource fl)
  unfolding decode_address
  decode_north j = do
    fs ← fields_of j
    name ← decode_text (find "name" fs)
    model ← decode_text (find "northModelName" fs)
    description ← decode_text (find "description" fs)
    value_type ← decode_text (find "valueType" fs)
    scale ← decode_float (find "scale" fs)
    offset ← decode_float (find "offsetValue" fs)
    address ← decode_address (find "otherParameters" fs)
    some (record {
      name = name;
      north_model_name = model;
      description = description;
      value_type = value_type;
      scale = scale;
      offset_value = offset;
      address = address;
    })

module _ {fl : Floats} (tag : Json fl → ℕ) where
  unfoldable pub decode_south : Json fl → Option (SouthResource fl)
  decode_south j = do
    fs ← fields_of j
    name ← decode_text (find "name" fs)
    model ← decode_text (find "southModelName" fs)
    read_write ← decode_text (find "readWrite" fs)
    value_type ← decode_text (find "valueType" fs)
    scale ← decode_float (find "scale" fs)
    offset ← decode_float (find "offset" fs)
    auto_upload ← decode_bool (find "autoUpload" fs)
    some (record {
      name = name;
      south_model_name = model;
      read_write = read_write;
      value_type = value_type;
      scale = scale;
      offset = offset;
      auto_upload = auto_upload;
      other_parameters = decode_any tag (find "other_parameters" fs);
    })

  unfoldable pub decode_resource : Json fl → Option (ResourceMapping fl)
  unfolding decode_south decode_north
  decode_resource j = do
    fs ← fields_of j
    north ← decode_pointer decode_north (find "northResource" fs)
    south ← decode_pointer decode_south (find "southResource" fs)
    some (record { north_resource = north; south_resource = south })

  unfoldable pub decode_device : Json fl → Option (DeviceMapping fl)
  unfolding decode_resource
  decode_device j = do
    fs ← fields_of j
    name ← decode_text (find "northDeviceName" fs)
    resources ← decode_slice (decode_pointer decode_resource) (find "resources" fs)
    some (record { north_device_name = name; resources = resources })

  unfoldable pub decode_query : Json fl → Option (QueryDeviceResponse fl)
  unfolding decode_device
  decode_query j = do
    fs ← fields_of j
    cmd ← decode_text (find "cmd" fs)
    result ← decode_slice (decode_pointer decode_device) (find "result" fs)
    some (record { cmd = cmd; result = result })

  unfoldable pub decode_sensor_data : Json fl → Option (SensorDataPayload fl)
  decode_sensor_data j = do
    fs ← fields_of j
    name ← decode_text (find "northDeviceName" fs)
    values ← decode_map tag (find "data" fs)
    some (record { north_device_name = name; data' = values })

module _ {fl : Floats} (again : fl.F64 → Number fl) (marshal : Value fl → Option (Json fl)) where
  unfoldable pub get_command_payload : MqttMessage fl → Option CommandPayload
  unfolding tree_of
  get_command_payload m =
      if eqb_ℤ m.msg_type type_command
      then (tree_of again marshal m.payload >>= decode_command)
      else none

  module _ (tag : Json fl → ℕ) where
    unfoldable pub get_sensor_data_payload : MqttMessage fl → Option (SensorDataPayload fl)
    unfolding tree_of
    get_sensor_data_payload m =
        if eqb_ℤ m.msg_type type_sensor_data
        then (tree_of again marshal m.payload >>= decode_sensor_data tag)
        else none

    unfoldable pub get_query_device_response : MqttResponse fl → Option (QueryDeviceResponse fl)
    unfolding tree_of
    get_query_device_response r =
        if eqb_ℤ r.msg_type type_query_device
        then (tree_of again marshal r.payload >>= decode_query tag)
        else none

    unfoldable pub get_device_attribute_push_payload :
        MqttMessage fl → Option (QueryDeviceResponse fl)
    unfolding tree_of
    get_device_attribute_push_payload m =
        if eqb_ℤ m.msg_type type_device_attribute_push
        then (tree_of again marshal m.payload >>= decode_query tag)
        else none
