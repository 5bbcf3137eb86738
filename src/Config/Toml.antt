-- ===== src/Config/Toml.antt =====
-- The `toml` crate, which src/config.rs calls and does not implement: a document in the forms in which
-- its deserializer hands it to serde.
use chirpstack_udp_forwarder.Prelude.{ℕ, List, Option, Bool, Text}

-- A table's members are in document order. Serde's readers of structs see nothing else of a value.
pub data Shape (V : Type 0) : Type 0 where
  table : List (Text × V) → Shape V
  array : List V → Shape V
  scalar : Shape V

-- `document` parses a text; the readers of the primitive types give `none` for a serde error.
pub record Toml : Type 1 where
  pub Value : Type 0
  pub document : Text → Option Value
  pub shape : Value → Shape Value
  pub read_string : Value → Option Text
  pub read_bool : Value → Option Bool
  pub read_u32 : Value → Option ℕ
  pub read_u64 : Value → Option ℕ
