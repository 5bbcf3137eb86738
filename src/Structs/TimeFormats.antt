-- ===== src/Structs/TimeFormats.antt =====
-- The modules expanded_time_format and compact_time_format of src/structs.rs: a time as a JSON string.
use chirpstack_udp_forwarder.Prelude.{Text, codes}
use chirpstack_udp_forwarder.External.{External, str}
use chirpstack_udp_forwarder.Structs.Types.{Value}

abbrev expanded_format : Text
expanded_format = codes "%Y-%m-%d %H:%M:%S %Z"

abbrev compact_format : Text
compact_format = codes "%+"

module _ (X : External) where
  abbrev pub serialize_expanded : X.DateTime → Value X
  serialize_expanded date = str (X.format date expanded_format)

  abbrev pub serialize_compact : X.DateTime → Value X
  serialize_compact date = str (X.format date compact_format)
