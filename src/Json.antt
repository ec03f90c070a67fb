-- ===== src/Json.antt =====
-- The JSON values that the program reads and writes, and what it takes from the standard library
-- and from `uuid` to convert them: `json.dumps`, `json.loads`, `str`, `uuid.UUID`, `isoformat`.
use agentic_execution.Prelude.{ℕ, Bool, Option, none, some, if◌then◌else◌, Text, text_eq, ℤ}

mutual
  pub data Json : Type 0 where
    null : Json
    bool : Bool → Json
    int : ℤ → Json
    -- a number that is no integer, by its text
    float : Text → Json
    str : Text → Json
    arr : Items → Json
    obj : Fields → Json

  pub data Items : Type 0 where
    nil : Items
    cons : Json → Items → Items

  pub data Fields : Type 0 where
    end : Fields
    field : Text → Json → Fields → Fields

pub record Codec : Type 0 where
  pub dumps : Json → Text
  -- `none` is a ValueError or TypeError
  pub loads : Text → Option Json
  pub to_str : Json → Text
  pub uuid_str : ℕ → Text
  -- `none` is a ValueError
  pub parse_uuid : Text → Option ℕ
  pub isoformat : ℕ → Text

unfoldable pub get_field : Text → Fields → Option Json
get_field key end = none
get_field key (field name value rest) = if text_eq name key then some value else get_field key rest
