-- ===== src/Prelude/Json.antt =====
-- JSON values, which the program stores and mostly hands on without looking inside. A number that is
-- no integer is kept as its text.
use Prim.Native.String.{String}
use mathlib.Core.Bool.{Bool}
use general_ai_core.Prelude.Int.{ℤ}

mutual
  pub data Json : Type 0 where
    null : Json
    boolean : Bool → Json
    number : ℤ → Json
    decimal : String → Json
    text : String → Json
    array : JsonItems → Json
    object : JsonObject → Json

  pub data JsonItems : Type 0 where
    no_items : JsonItems
    item : Json → JsonItems → JsonItems

  pub data JsonObject : Type 0 where
    no_fields : JsonObject
    field : String → Json → JsonObject → JsonObject
