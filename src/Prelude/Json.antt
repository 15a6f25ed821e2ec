-- ===== src/Prelude/Json.antt =====
-- The values of `Any`-typed fields: what JSON can hold. A number is kept as it is written.
use Prim.Native.String.{String}
use mathlib.Core.Bool.{Bool}

mutual
  pub data Json : Type 0 where
    null : Json
    bool : Bool → Json
    num : String → Json
    str : String → Json
    arr : Items → Json
    obj : Fields → Json

  pub data Items : Type 0 where
    nil : Items
    cons : Json → Items → Items

  pub data Fields : Type 0 where
    end : Fields
    field : String → Json → Fields → Fields
