-- ===== src/Config/Deserialize/Sections.antt =====
-- What the two sections of a configuration document say.
use chirpstack_udp_forwarder.Prelude.{◌≡◌, ◌↔◌, refl, ap, ◌∙◌, List, some, Text, codes}
use chirpstack_udp_forwarder.Prelude.Options.{bound, some_injective}
use chirpstack_udp_forwarder.Config.{
  Server, UdpForwarder, default_udp_forwarder, Concentratord, default_concentratord, Configuration,
}
use chirpstack_udp_forwarder.Config.Toml.{Toml}
use chirpstack_udp_forwarder.Config.Deserialize.{
  members_of, with_default, required, udp_forwarder_names, concentratord_names, configuration_names,
  deserialize_servers, deserialize_udp_forwarder, deserialize_concentratord,
  deserialize_configuration,
}
use chirpstack_udp_forwarder.Config.Deserialize.Laws.{
  IsField, IsRequired, with_default_iff, required_iff,
}
use chirpstack_udp_forwarder.Config.Deserialize.Servers.{
  Says, says, AreServers, deserialize_servers_iff,
}

module _ (T : Toml) where
  abbrev pub IsUdpForwarder : T.Value → UdpForwarder → Type 0
  IsUdpForwarder v u =
      (ms : List (Text × T.Value)) × (members_of udp_forwarder_names (T.shape v) ≡ some ms)
      × Says T T.read_string (codes "log_level") default_udp_forwarder.log_level ms u.log_level
      × Says T T.read_bool (codes "log_to_syslog") default_udp_forwarder.log_to_syslog ms
          u.log_to_syslog
      × Says T T.read_string (codes "metrics_bind") default_udp_forwarder.metrics_bind ms
          u.metrics_bind
      × IsField (codes "servers") (AreServers T) default_udp_forwarder.servers ms u.servers

  servers-IsField_iff :
      (ms : List (Text × T.Value)) (servers : List Server)
      → (with_default (codes "servers") (deserialize_servers T) default_udp_forwarder.servers ms
          ≡ some servers)
        ↔ IsField (codes "servers") (AreServers T) default_udp_forwarder.servers ms servers
  servers-IsField_iff ms servers =
      with_default_iff (deserialize_servers T) (AreServers T) (deserialize_servers_iff T)
        (codes "servers") default_udp_forwarder.servers ms servers

  deserialize_udp_forwarder_iff :
      (v : T.Value) (u : UdpForwarder)
      → (deserialize_udp_forwarder T v ≡ some u) ↔ IsUdpForwarder v u
  unfolding deserialize_udp_forwarder
  deserialize_udp_forwarder_iff v u = (
    λ h.
        let (ms, m, h1) = bound (members_of udp_forwarder_names (T.shape v)) _ u h in
        let (a1, e1, h2) = bound _ _ u h1 in
        let (a2, e2, h3) = bound _ _ u h2 in
        let (a3, e3, h4) = bound _ _ u h3 in
        let (a4, e4, h5) = bound _ _ u h4 in
        let q = some_injective _ _ h5 in
        (
          ms,
          m,
          (says T T.read_string _ _ ms u.log_level).0 (e1 ∙ ap (λ r. some r.log_level) q),
          (says T T.read_bool _ _ ms u.log_to_syslog).0 (e2 ∙ ap (λ r. some r.log_to_syslog) q),
          (says T T.read_string _ _ ms u.metrics_bind).0 (e3 ∙ ap (λ r. some r.metrics_bind) q),
          (servers-IsField_iff ms u.servers).0 (e4 ∙ ap (λ r. some r.servers) q),
        ),
    λ (ms, m, f1, f2, f3, f4).
        rw
          (
            m,
            (says T T.read_string _ _ ms u.log_level).1 f1,
            (says T T.read_bool _ _ ms u.log_to_syslog).1 f2,
            (says T T.read_string _ _ ms u.metrics_bind).1 f3,
            (servers-IsField_iff ms u.servers).1 f4,
          )
          refl,
  )

  abbrev pub IsConcentratord : T.Value → Concentratord → Type 0
  IsConcentratord v c =
      (ms : List (Text × T.Value)) × (members_of concentratord_names (T.shape v) ≡ some ms)
      × Says T T.read_string (codes "event_url") default_concentratord.event_url ms c.event_url
      × Says T T.read_string (codes "command_url") default_concentratord.command_url ms
          c.command_url

  deserialize_concentratord_iff :
      (v : T.Value) (c : Concentratord)
      → (deserialize_concentratord T v ≡ some c) ↔ IsConcentratord v c
  unfolding deserialize_concentratord
  deserialize_concentratord_iff v c = (
    λ h.
        let (ms, m, h1) = bound (members_of concentratord_names (T.shape v)) _ c h in
        let (a1, e1, h2) = bound _ _ c h1 in
        let (a2, e2, h3) = bound _ _ c h2 in
        let q = some_injective _ _ h3 in
        (
          ms,
          m,
          (says T T.read_string _ _ ms c.event_url).0 (e1 ∙ ap (λ r. some r.event_url) q),
          (says T T.read_string _ _ ms c.command_url).0 (e2 ∙ ap (λ r. some r.command_url) q),
        ),
    λ (ms, m, f1, f2).
        rw
          (
            m,
            (says T T.read_string _ _ ms c.event_url).1 f1,
            (says T T.read_string _ _ ms c.command_url).1 f2,
          )
          refl,
  )

  -- Both sections stand in the document.
  abbrev pub IsConfiguration : T.Value → Configuration → Type 0
  IsConfiguration v conf =
      (ms : List (Text × T.Value)) × (members_of configuration_names (T.shape v) ≡ some ms)
      × IsRequired (codes "udp_forwarder") IsUdpForwarder ms conf.udp_forwarder
      × IsRequired (codes "concentratord") IsConcentratord ms conf.concentratord

  pub deserialize_configuration_iff :
      (v : T.Value) (conf : Configuration)
      → (deserialize_configuration T v ≡ some conf) ↔ IsConfiguration v conf
  unfolding deserialize_configuration
  deserialize_configuration_iff v conf = (
    λ h.
        let (ms, m, h1) = bound (members_of configuration_names (T.shape v)) _ conf h in
        let (a1, e1, h2) = bound _ _ conf h1 in
        let (a2, e2, h3) = bound _ _ conf h2 in
        let q = some_injective _ _ h3 in
        (
          ms,
          m,
          (section1 ms).0 (e1 ∙ ap (λ r. some r.udp_forwarder) q),
          (section2 ms).0 (e2 ∙ ap (λ r. some r.concentratord) q),
        ),
    λ (ms, m, f1, f2). rw (m, (section1 ms).1 f1, (section2 ms).1 f2) refl,
  )
    where
      section1 :
          (ms : List (Text × T.Value))
          → (required (codes "udp_forwarder") (deserialize_udp_forwarder T) ms
              ≡ some conf.udp_forwarder)
            ↔ IsRequired (codes "udp_forwarder") IsUdpForwarder ms conf.udp_forwarder
      section1 ms =
          required_iff (deserialize_udp_forwarder T) IsUdpForwarder deserialize_udp_forwarder_iff _
            ms conf.udp_forwarder

      section2 :
          (ms : List (Text × T.Value))
          → (required (codes "concentratord") (deserialize_concentratord T) ms
              ≡ some conf.concentratord)
            ↔ IsRequired (codes "concentratord") IsConcentratord ms conf.concentratord
      section2 ms =
          required_iff (deserialize_concentratord T) IsConcentratord deserialize_concentratord_iff _
            ms conf.concentratord
