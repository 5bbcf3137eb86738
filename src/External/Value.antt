-- ===== src/External/Value.antt =====
-- A JSON value, as src/structs.rs hands it to serde_json and reads it back: integers keep their
-- sign, and the two float types keep apart, since they print differently.
-- A text that is read may break off, or go wrong, inside an array or an object: `cut_items` and
-- `cut` stand there, after what was read before. A text that is written has neither.
use chirpstack_udp_forwarder.Prelude.{Bool, Text}
use chirpstack_udp_forwarder.Prelude.Int.{ℤ}

mutual
  pub data Json (F64 F32 : Type 0) : Type 0 where
    null : Json F64 F32
    bool : Bool → Json F64 F32
    int : ℤ → Json F64 F32
    f64 : F64 → Json F64 F32
    f32 : F32 → Json F64 F32
    str : Text → Json F64 F32
    arr : Items F64 F32 → Json F64 F32
    obj : Fields F64 F32 → Json F64 F32

  pub data Items (F64 F32 : Type 0) : Type 0 where
    nil : Items F64 F32
    cut_items : Items F64 F32
    cons : Json F64 F32 → Items F64 F32 → Items F64 F32

  -- The members of an object, in document order.
  pub data Fields (F64 F32 : Type 0) : Type 0 where
    end : Fields F64 F32
    cut : Fields F64 F32
    field : Text → Json F64 F32 → Fields F64 F32 → Fields F64 F32
