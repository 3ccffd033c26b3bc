-- ===== src/Message/RoundTrip.antt =====
-- A message that is written is read back as it was (internal/pkg/mqtt/message.go).
use app_modbus_go.Prelude.{
  ℕ, ◌<◌, String, Option, some, ◌≡◌, refl, sym, ap, Bool-cases, Option-cases, inl, inr, eq_iff,
}
use app_modbus_go.Prelude.Eq.{String_eq, ◌==◌}
use app_modbus_go.Prelude.Int.{pos}
use app_modbus_go.ValueType.{same}
use app_modbus_go.Value.{Floats, Value}
use app_modbus_go.Json.{
  Number, Json, ◌>>=◌, find, find_from, matches, fold, fields_of, decode_text, decode_int, rewrite,
}
use app_modbus_go.Message.{
  CommandContent, CommandPayload, MqttMessage, MqttResponse, received, type_command, parse_message,
  parse_response,
}
use app_modbus_go.Message.Encode.{
  encode_content, encode_command, tree_of, message_to_json, response_to_json,
}
use app_modbus_go.Message.Extract.{decode_command_content, decode_command, get_command_payload}

-- What encoding/json does with numbers: a float64 is written so that it is read back as it was, and
-- one that is an unsigned integer of 16 bits is written without a fraction or an exponent.
pub record Numbers (fl : Floats) (again : fl.F64 → Number fl) : Type 0 where
  pub float : (x : fl.F64) → (again x).float ≡ x
  pub integer : (n : ℕ) → n < 65536 → (again (fl.of_int64 (pos n))).integer ≡ some (pos n)

module _ {fl : Floats} (again : fl.F64 → Number fl) (marshal : Value fl → Option (Json fl)) where
  -- What ToJSON writes, ParseMessage reads back as the same message, its payload being the tree that
  -- was written for it; where the payload cannot be written there is no text.
  pub parse_message_lem :
      (m : MqttMessage fl)
      → (message_to_json again marshal m >>= parse_message)
        ≡ (tree_of again marshal m.payload >>= (λ p. some (record m { payload = received p })))
  unfolding message_to_json parse_message fields_of find find_from matches fold decode_text
      decode_int same
  parse_message_lem m = elim (Option-cases (tree_of again marshal m.payload)) [
    | inl e ↦ rw (message_to_json, e) refl
    | inr (p, e) ↦ rw (message_to_json, e) refl
  ]

  -- What ToJSON writes of a response, ParseResponse reads back as the same response, its payload
  -- being the tree that was written for it; where the payload cannot be written there is no text.
  pub parse_response_lem :
      (r : MqttResponse fl)
      → (response_to_json again marshal r >>= parse_response)
        ≡ (tree_of again marshal r.payload >>= (λ p. some (record r { payload = received p })))
  unfolding response_to_json parse_response fields_of find find_from matches fold decode_text
      decode_int same
  parse_response_lem r = elim (Option-cases (tree_of again marshal r.payload)) [
    | inl e ↦ rw (response_to_json, e) refl
    | inr (p, e) ↦ rw (response_to_json, e) refl
  ]

  -- A message has no code and no `msg`: ParseResponse sets both to their zero values.
  pub parse_response-message_to_json :
      (m : MqttMessage fl)
      → (message_to_json again marshal m >>= parse_response) ≡ (
          tree_of again marshal m.payload >>= (λ p. some (record {
            request_id = m.request_id;
            version = m.version;
            msg_type = m.msg_type;
            timestamp = m.timestamp;
            code = pos 0;
            msg = "";
            payload = received p;
          })))
  unfolding message_to_json parse_response fields_of find find_from matches fold decode_text
      decode_int same
  parse_response-message_to_json m = elim (Option-cases (tree_of again marshal m.payload)) [
    | inl e ↦ rw (message_to_json, e) refl
    | inr (p, e) ↦ rw (message_to_json, e) refl
  ]

  decode-encode_content :
      (c : CommandContent) → decode_command_content (rewrite again (encode_content c)) ≡ some c
  unfolding decode_command_content encode_content rewrite fields_of find find_from matches fold
      decode_text same
  decode-encode_content c = elim (Bool-cases (c.north_resource_value == "")) [
    | inl empty ↦
        rw (encode_content, empty)
          (ap some (with_value c "" (sym ((eq_iff c.north_resource_value "").0 empty))))
    | inr full ↦ rw (encode_content, full) refl
  ]
    where
      with_value :
          (c : CommandContent) (v : String)
          → v ≡ c.north_resource_value
          → record c { north_resource_value = v } ≡ c
      with_value c v e = cc

  -- A command that is written by the tags of its structs, as the payload of a message of type 6, is
  -- read back as it was.
  pub get_command_payload_lem :
      (m : MqttMessage fl) (p : CommandPayload)
      → m.msg_type ≡ type_command
      → m.payload ≡ received (encode_command p)
      → get_command_payload again marshal m ≡ some p
  unfolding get_command_payload tree_of encode_command rewrite decode_command fields_of find
      find_from matches fold decode_text same
  get_command_payload_lem m p typed carried =
      rw (get_command_payload, typed, carried, decode-encode_content p.cmd_content) refl
