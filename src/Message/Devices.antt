-- ===== src/Message/Devices.antt =====
-- The devices that the data center describes, written by the json tags of internal/pkg/mqtt/message.go
-- and read as its query response and its push are.
use app_modbus_go.Prelude.{ℕ, ◌<◌, Option, none, some, List, [], ◌∷◌, ◌≡◌, refl, lt→ltb}
use app_modbus_go.Prelude.Int.{pos}
use app_modbus_go.Value.{Floats, Value}
use app_modbus_go.ValueType.{same}
use app_modbus_go.Resource.{NorthResource, SouthResource, ResourceMapping, DeviceMapping}
use app_modbus_go.Json.{
  Number, Json, null, boolean, num, str, array, object, Items, nil, cons, end, field, find,
  find_from, matches, fold, fields_of, decode_text, decode_float, decode_bool, decode_uint16,
  decode_pointer, decode_items, decode_slice, decode_any, fit_uint16, rewrite, rewrite_items,
}
use app_modbus_go.Message.{QueryDeviceResponse, MqttResponse, received, type_query_device}
use app_modbus_go.Message.Encode.{integer, tree_of}
use app_modbus_go.Message.Extract.{
  decode_address, decode_north, decode_south, decode_resource, decode_device, decode_query,
  get_query_device_response,
}
use app_modbus_go.Message.RoundTrip.{Numbers}

-- What the tags say of each struct. `put` is how a value of type `interface{}` is written.
module _ {fl : Floats} (again : fl.F64 → Number fl) (put : Value fl → Json fl) where
  abbrev pub encode_float : fl.F64 → Json fl
  encode_float x = num (again x)

  abbrev pub encode_pointer : {A : Type 0} → (A → Json fl) → Option A → Json fl
  encode_pointer encode none = null
  encode_pointer encode (some a) = encode a

  abbrev pub encode_items : {A : Type 0} → (A → Json fl) → List A → Items fl
  encode_items encode [] = nil
  encode_items encode (a ∷ as') = cons (encode a) (encode_items encode as')

  abbrev pub encode_north : NorthResource fl → Json fl
  encode_north r = object (
      field "name" (str r.name) (
        field "northModelName" (str r.north_model_name) (
          field "description" (str r.description) (
            field "valueType" (str r.value_type) (
              field "scale" (encode_float r.scale) (
                field "offsetValue" (encode_float r.offset_value) (
                  field "otherParameters"
                    (object
                      (field "modbus" (object (field "address" (integer (pos r.address)) end)) end))
                    end)))))))

  abbrev pub encode_south : SouthResource fl → Json fl
  encode_south r = object (
      field "name" (str r.name) (
        field "southModelName" (str r.south_model_name) (
          field "readWrite" (str r.read_write) (
            field "valueType" (str r.value_type) (
              field "scale" (encode_float r.scale) (
                field "offset" (encode_float r.offset) (
                  field "autoUpload" (boolean r.auto_upload)
                    (field "other_parameters" (put r.other_parameters) end))))))))

  abbrev pub encode_resource : ResourceMapping fl → Json fl
  encode_resource r = object (
      field "northResource" (encode_pointer encode_north r.north_resource)
        (field "southResource" (encode_pointer encode_south r.south_resource) end))

  abbrev pub encode_device : DeviceMapping fl → Json fl
  encode_device d = object (
      field "northDeviceName" (str d.north_device_name)
        (field "resources" (array (encode_items (encode_pointer encode_resource) d.resources)) end))

  abbrev pub encode_devices : QueryDeviceResponse fl → Json fl
  encode_devices q = object (
      field "cmd" (str q.cmd)
        (field "result" (array (encode_items (encode_pointer encode_device) q.result)) end))

module _ {fl : Floats} (again : fl.F64 → Number fl) (put : Value fl → Json fl) (tag : Json fl → ℕ)
    (numbers : Numbers fl again) where
  -- What can be written: an address of 16 bits, and a value that a text can carry.
  abbrev pub NorthFits : Option (NorthResource fl) → Type 0
  NorthFits none = Unit
  NorthFits (some r) = r.address < 65536

  abbrev pub SouthFits : Option (SouthResource fl) → Type 0
  SouthFits none = Unit
  SouthFits (some r) = decode_any tag (rewrite again (put r.other_parameters)) ≡ r.other_parameters

  abbrev pub ResourceFits : Option (ResourceMapping fl) → Type 0
  ResourceFits none = Unit
  ResourceFits (some r) = NorthFits r.north_resource × SouthFits r.south_resource

  abbrev pub All : {A : Type 0} → (A → Type 0) → List A → Type 0
  All P [] = Unit
  All P (a ∷ as') = P a × All P as'

  abbrev pub DeviceFits : Option (DeviceMapping fl) → Type 0
  DeviceFits none = Unit
  DeviceFits (some d) = All ResourceFits d.resources

  fit : (n : ℕ) → n < 65536 → fit_uint16 (some (pos n)) ≡ some n
  unfolding fit_uint16
  fit n small = rw (lt→ltb n 65536 small) refl

  north :
      (r : Option (NorthResource fl))
      → NorthFits r
      → decode_pointer decode_north
          (rewrite again (encode_pointer again put (encode_north again put) r))
        ≡ some r
  unfolding decode_pointer decode_north decode_address rewrite fields_of find find_from matches fold
      decode_text decode_float decode_uint16 same
  north none fits = refl
  north (some r) fits =
      rw
        (
          numbers.integer r.address fits,
          fit r.address fits,
          numbers.float r.scale,
          numbers.float r.offset_value,
        )
        (rw (numbers.float r.scale, numbers.float r.offset_value) refl)

  south :
      (r : Option (SouthResource fl))
      → SouthFits r
      → decode_pointer
          (decode_south tag)
          (rewrite again (encode_pointer again put (encode_south again put) r))
        ≡ some r
  unfolding decode_pointer decode_south rewrite fields_of find find_from matches fold decode_text
      decode_float decode_bool same
  south none fits = refl
  south (some r) fits =
      rw (fits, numbers.float r.scale, numbers.float r.offset)
        (rw (numbers.float r.scale, numbers.float r.offset) refl)

  resource :
      (r : Option (ResourceMapping fl))
      → ResourceFits r
      → decode_pointer
          (decode_resource tag)
          (rewrite again (encode_pointer again put (encode_resource again put) r))
        ≡ some r
  unfolding decode_pointer decode_resource rewrite fields_of find find_from matches fold same
  resource none fits = refl
  resource (some r) fits = rw (north r.north_resource fits.0, south r.south_resource fits.1) refl

  -- the elements of a slice, one after the other
  items :
      {A : Type 0} (encode : A → Json fl) (decode : Json fl → Option A) (P : A → Type 0)
      → ((a : A) → P a → decode (rewrite again (encode a)) ≡ some a)
      → (as' : List A) → All P as'
      → decode_items decode (rewrite_items again (encode_items again put encode as')) ≡ some as'
  unfolding decode_items rewrite
  items encode decode P one [] fits = refl
  items encode decode P one (a ∷ as') fits =
      rw (one a fits.0, items encode decode P one as' fits.1) refl

  device :
      (d : Option (DeviceMapping fl))
      → DeviceFits d
      → decode_pointer
          (decode_device tag)
          (rewrite again (encode_pointer again put (encode_device again put) d))
        ≡ some d
  unfolding decode_pointer decode_device rewrite fields_of find find_from matches fold decode_text
      decode_slice same
  device none fits = refl
  device (some d) fits =
      rw
        (items (encode_pointer again put (encode_resource again put))
          (decode_pointer (decode_resource tag)) ResourceFits resource d.resources fits)
        refl

  -- The answer to a device query, written by the tags of its structs as the payload of a response of
  -- type 2, is read back as it was, nil pointers included, where every address has 16 bits and
  -- every other parameter is a value that a text carries.
  pub get_query_device_response_lem :
      (marshal : Value fl → Option (Json fl)) (resp : MqttResponse fl) (q : QueryDeviceResponse fl)
      → All DeviceFits q.result
      → resp.msg_type ≡ type_query_device
      → resp.payload ≡ received (encode_devices again put q)
      → get_query_device_response again marshal tag resp ≡ some q
  unfolding get_query_device_response tree_of decode_query rewrite fields_of find find_from matches
      fold decode_text decode_slice same
  get_query_device_response_lem marshal resp q fits typed carried =
      rw
        (
          get_query_device_response,
          typed,
          carried,
          items (encode_pointer again put (encode_device again put))
              (decode_pointer (decode_device tag)) DeviceFits device q.result fits,
        )
        refl
