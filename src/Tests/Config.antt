-- ===== src/Tests/Config.antt =====
-- A configuration file with an environment variable.
use chirpstack_udp_forwarder.Prelude.{
  ℕ, ◌≡◌, refl, arith, [], ◌∷◌, Option, none, some, Text, codes, text_eq, if◌then◌else◌,
}
use chirpstack_udp_forwarder.Prelude.Outcome.{ok, panic}
use chirpstack_udp_forwarder.Config.{
  Configuration, default_server, default_udp_forwarder, default_concentratord,
}
use chirpstack_udp_forwarder.Config.Toml.{Toml, Shape, table, array, scalar}
use chirpstack_udp_forwarder.Config.Deserialize.{
  members_of, find_field, add_field, with_default, required, read_each, read_vec,
  deserialize_server, deserialize_servers, deserialize_udp_forwarder, deserialize_concentratord,
  deserialize_configuration,
}
use chirpstack_udp_forwarder.Config.Load.{
  Vars, get, read_files, replace_vars, replace_from, starts_with,
}
use chirpstack_udp_forwarder.Config.Load.Laws.{HasNoDollar, get-expanded}

-- The values of one document.
data Node : Type 0 where
  root section urls list first address limit url : Node

abbrev shape : Node → Shape Node
shape root = table ((codes "concentratord", urls) ∷ (codes "udp_forwarder", section) ∷ [])
shape section = table ((codes "unknown", limit) ∷ (codes "servers", list) ∷ [])
shape urls = table ((codes "event_url", url) ∷ [])
shape list = array (first ∷ [])
shape first = table ((codes "keepalive_max_failures", limit) ∷ (codes "server", address) ∷ [])
shape _ = scalar

abbrev read_string : Node → Option Text
read_string address = some (codes "ns:1700NAME")
read_string url = some (codes "ipc:///e")
read_string _ = none

abbrev read_number : Node → Option ℕ
read_number limit = some 3
read_number _ = none

-- It is what one text parses to.
abbrev toml : Toml
toml = record {
  Value = Node;
  document = λ t. if text_eq t (codes "s=ns:1700NAME") then some root else none;
  shape = shape;
  read_string = read_string;
  read_bool = λ v. none;
  read_u32 = read_number;
  read_u64 = read_number;
}

abbrev conf : Configuration
conf = record {
  udp_forwarder = record default_udp_forwarder {
    servers =
        record default_server { server = codes "ns:1700NAME"; keepalive_max_failures = 3 } ∷ [];
  };
  concentratord = record default_concentratord { event_url = codes "ipc:///e" };
}

abbrev read_to_string : Text → Option Text
read_to_string t = if text_eq t (codes "a.toml") then some (codes "s=$HOSTNAME") else none

abbrev vars : Vars
vars = some (codes "HOST", codes "ns:1700") ∷ some (codes "HOSTNAME", codes "gw") ∷ []

loaded : get toml read_to_string (codes "a.toml" ∷ []) vars ≡ ok conf
unfolding get read_files replace_vars replace_from starts_with text_eq members_of find_field
    add_field with_default required read_each read_vec deserialize_server deserialize_servers
    deserialize_udp_forwarder deserialize_concentratord deserialize_configuration
loaded = refl

-- `$HOSTNAME` becomes the value of `HOST` with "NAME" behind it.
get-expanded_example : get toml read_to_string (codes "a.toml" ∷ []) vars ≡ ok conf
unfolding read_files HasNoDollar text_eq members_of find_field add_field with_default required
    read_each read_vec deserialize_server deserialize_servers deserialize_udp_forwarder
    deserialize_concentratord deserialize_configuration
get-expanded_example =
    get-expanded toml read_to_string (codes "a.toml" ∷ []) (codes "HOST") (codes "ns:1700")
      (codes "s=") (codes "NAME") ((codes "HOSTNAME", codes "gw") ∷ []) refl (ground arith)
      (ground arith) (ground arith)

-- A variable that is not Unicode, behind one that is.
abbrev broken : Vars
broken = some (codes "HOST", codes "ns:1700") ∷ none ∷ []

not_unicode : get toml read_to_string (codes "a.toml" ∷ []) broken ≡ panic
unfolding get read_files replace_vars replace_from starts_with text_eq
not_unicode = refl
