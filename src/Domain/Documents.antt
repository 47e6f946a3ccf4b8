-- ===== src/Domain/Documents.antt =====
-- JSON documents and `json.RawMessage`. An object is the list of its fields in order.
use durable_work_flow_engine.Prelude.{String, Bool, Option, none, some, ℤ}

-- A number literal that is an integer, or one with a fraction or an exponent (its text).
pub data Number : Type 0 where
  integer : ℤ → Number
  decimal : String → Number

mutual
  pub data Json : Type 0 where
    null : Json
    bool : Bool → Json
    num : Number → Json
    str : String → Json
    arr : Elems → Json
    obj : Fields → Json

  pub data Elems : Type 0 where
    nil : Elems
    cons : Json → Elems → Elems

  pub data Fields : Type 0 where
    end : Fields
    field : String → Json → Fields → Fields

-- `json.RawMessage`: no bytes, bytes that are no JSON, or a document.
pub data RawMessage : Type 0 where
  empty : RawMessage
  malformed : String → RawMessage
  document : Json → RawMessage

-- A NULL column is read as no bytes.
abbrev pub raw_of_column : Option Json → RawMessage
raw_of_column none = empty
raw_of_column (some j) = document j
