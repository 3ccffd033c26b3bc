-- ===== src/Resource.antt =====
-- Devices and their resources as the data center describes them (internal/pkg/mqtt/message.go).
-- `none` is a nil pointer, which `null` in the JSON text gives.
use app_modbus_go.Prelude.{ℕ, String, Bool, Option, List}
use app_modbus_go.Value.{Floats, Value}

pub record NorthResource (fl : Floats) : Type 0 where
  pub name : String
  pub north_model_name : String
  pub description : String
  pub value_type : String
  pub scale : fl.F64
  pub offset_value : fl.F64
  -- OtherParameters.Modbus.Address, a uint16
  pub address : ℕ

pub record SouthResource (fl : Floats) : Type 0 where
  pub name : String
  pub south_model_name : String
  pub read_write : String
  pub value_type : String
  pub scale : fl.F64
  pub offset : fl.F64
  pub auto_upload : Bool
  pub other_parameters : Value fl

pub record ResourceMapping (fl : Floats) : Type 0 where
  pub north_resource : Option (NorthResource fl)
  pub south_resource : Option (SouthResource fl)

pub record DeviceMapping (fl : Floats) : Type 0 where
  pub north_device_name : String
  pub resources : List (Option (ResourceMapping fl))
