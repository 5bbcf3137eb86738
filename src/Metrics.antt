-- ===== src/Metrics.antt =====
-- src/metrics.rs: the four counter families, their registry and their increments.
pub mod Registry
pub mod Server
use chirpstack_udp_forwarder.Prelude.{
  ℕ, Text, Bool, true, false, List, [], ◌∷◌, ◌++◌, ◌||◌, if◌then◌else◌, codes,
}
use chirpstack_udp_forwarder.External.{External}
use chirpstack_udp_forwarder.Runtime.{Runtime, UdpLabels}

-- The four statics, by their names.
pub data Family : Type 0 where
  sent_count sent_bytes received_count received_bytes : Family

-- What `register` gives to the registry.
unfoldable pub name_of : Family → Text
name_of sent_count = codes "udp_sent_count"
name_of sent_bytes = codes "udp_sent_bytes"
name_of received_count = codes "udp_received_count"
name_of received_bytes = codes "udp_received_bytes"

unfoldable pub help_of : Family → Text
help_of sent_count = codes "Number of UDP datagrams sent"
help_of sent_bytes = codes "Number of bytes sent over UDP"
help_of received_count = codes "Number of UDP datagrams received"
help_of received_bytes = codes "Number of bytes received over UDP"

abbrev pub same : Family → Family → Bool
same sent_count sent_count = true
same sent_bytes sent_bytes = true
same received_count received_count = true
same received_bytes received_bytes = true
same _ _ = false

abbrev pub is_registered : Family → List Family → Bool
is_registered f [] = false
is_registered f (g ∷ gs) = same f g || is_registered f gs

-- The first access of a `LazyLock` runs its initializer, which registers the family: so a family is
-- in the registry once it was accessed.
unfoldable pub access : Family → List Family → List Family
access f registry = if is_registered f registry then registry else registry ++ (f ∷ [])

module _ {X : External} (R : Runtime X) where
  -- `registry` holds the registered families, the oldest first.
  pub record Metrics : Type 0 where
    pub udp_sent_count : R.Family
    pub udp_sent_bytes : R.Family
    pub udp_received_count : R.Family
    pub udp_received_bytes : R.Family
    pub registry : List Family

abbrev pub labels : Text → Text → UdpLabels
labels server typ = record { server = server; ty = typ }

module _ {X : External} (R : Runtime X) where
  unfoldable pub incr_udp_sent_count : Text → Text → Metrics R → Metrics R
  incr_udp_sent_count server typ m = record m {
    udp_sent_count = R.inc_by m.udp_sent_count (labels server typ) 1;
    registry = access sent_count m.registry;
  }

  unfoldable pub incr_udp_sent_bytes : Text → Text → ℕ → Metrics R → Metrics R
  incr_udp_sent_bytes server typ count m = record m {
    udp_sent_bytes = R.inc_by m.udp_sent_bytes (labels server typ) count;
    registry = access sent_bytes m.registry;
  }

  unfoldable pub incr_udp_received_count : Text → Text → Metrics R → Metrics R
  incr_udp_received_count server typ m = record m {
    udp_received_count = R.inc_by m.udp_received_count (labels server typ) 1;
    registry = access received_count m.registry;
  }

  unfoldable pub incr_udp_received_bytes : Text → Text → ℕ → Metrics R → Metrics R
  incr_udp_received_bytes server typ count m = record m {
    udp_received_bytes = R.inc_by m.udp_received_bytes (labels server typ) count;
    registry = access received_bytes m.registry;
  }
