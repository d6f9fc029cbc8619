-- ===== src/Json.antt =====
-- The values of Go's `interface{}` that encoding/json and apimachinery's unstructured objects hold:
-- `map[string]interface{}` is `Fields`, `[]interface{}` is `Items`.
use namespace_class.Base.{String, Bool}

mutual
  pub data Value : Type 0 where
    null : Value
    boolean : Bool → Value
    -- an int64 or a float64, by its text
    number : String → Value
    string : String → Value
    array : Items → Value
    object : Fields → Value

  pub data Items : Type 0 where
    nil : Items
    cons : Value → Items → Items

  pub data Fields : Type 0 where
    end : Fields
    field : String → Value → Fields → Fields
