-- ===== src/Structs/TxPk/Fields.antt =====
-- `struct TxPk` of src/structs.rs. Its field `data` is called `payload` here.
use chirpstack_udp_forwarder.Prelude.{ℕ, Bool, Option, Text}
use chirpstack_udp_forwarder.External.{External}
use chirpstack_udp_forwarder.Structs.Types.{Modulation, DataRate, CodeRate}

module _ (X : External) where
  pub record TxPk : Type 0 where
    pub imme : Option Bool
    pub tmst : Option ℕ
    pub tmms : Option ℕ
    pub freq : X.F64
    pub powe : ℕ
    pub modu : Modulation
    pub datr : DataRate
    pub codr : Option CodeRate
    pub fdev : Option ℕ
    pub ipol : Option Bool
    pub prea : Option ℕ
    pub payload : Text
    pub ncrc : Option Bool
