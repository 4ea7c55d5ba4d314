-- ===== src/Verbs/Json.antt =====
-- The values that a request body parses to: `serde_json::Value` as the source matches on it. A number
-- carries its literal and what `as_u64` answers for it.
use agentplug.Base.{ℕ, Bool, Option, none, some, String, str_eq, if◌then◌else◌}

mutual
  pub data Value : Type 0 where
    null : Value
    bool : Bool → Value
    number : (literal : String) → Option ℕ → Value
    text : String → Value
    array : Values → Value
    object : Fields → Value

  pub data Values : Type 0 where
    nil : Values
    cons : Value → Values → Values

  pub data Fields : Type 0 where
    end : Fields
    field : String → Value → Fields → Fields

lookup : String → Fields → Option Value
lookup k end = none
lookup k (field j v rest) = if str_eq j k then some v else lookup k rest

-- `Value::get` with a text key: only an object has members.
unfoldable pub get : String → Value → Option Value
unfolding lookup
get k (object fields) = lookup k fields
get k other = none

-- `Value::as_str`
abbrev pub as_str : Value → Option String
as_str (text s) = some s
as_str other = none

-- `Value::as_u64`
abbrev pub as_u64 : Value → Option ℕ
as_u64 (number literal n) = n
as_u64 other = none

-- `Value::as_bool`
abbrev pub as_bool : Value → Option Bool
as_bool (bool b) = some b
as_bool other = none
