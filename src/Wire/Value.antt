-- ===== src/Wire/Value.antt =====
-- The JavaScript values that reach the wire or are refused before it, as finite trees.
use project_builder_sdk.Base.{Bool, Text}

-- A finite number is the text that `String(n)` gives.
pub data Number : Type 0 where
  finite : Text → Number
  neg_zero nan infinity neg_infinity : Number

mutual
  pub data JsValue : Type 0 where
    undefined null : JsValue
    bool : Bool → JsValue
    num : Number → JsValue
    str : Text → JsValue
    bigint : Text → JsValue
    symbol function : JsValue
    arr : Elems → JsValue
    obj : Fields → JsValue
    -- Objects outside the plain prototypes: a `Date` with its ISO text, a `Map`, a class instance.
    date : Text → JsValue
    map_object : JsValue
    class_instance : Fields → JsValue

  pub data Elems : Type 0 where
    nil : Elems
    cons : JsValue → Elems → Elems

  -- The own enumerable string keys of an object, in key order.
  pub data Fields : Type 0 where
    end : Fields
    field : Text → JsValue → Fields → Fields
