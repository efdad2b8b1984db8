-- ===== src/Common/Json.antt =====
-- JSON values, as Python's `json` reads and writes them; a number is kept as its literal.
use Prim.Native.String.{String}
use mathlib.Core.Bool.{Bool, true, false}

mutual
  pub data Json : Type 0 where
    null : Json
    bool : Bool → Json
    number : String → Json
    string : String → Json
    array : Items → Json
    object : Fields → Json

  pub data Items : Type 0 where
    nil : Items
    cons : Json → Items → Items

  pub data Fields : Type 0 where
    end : Fields
    field : String → Json → Fields → Fields

-- `{}`
abbrev pub empty_object : Json
empty_object = object end

-- `isinstance(v, dict)`
abbrev pub is_object : Json → Bool
is_object (object _) = true
is_object _ = false
