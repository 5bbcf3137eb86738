-- ===== src/Config/Deserialize/Servers.antt =====
-- What a server's table of a configuration document says, and the array of these tables.
use chirpstack_udp_forwarder.Prelude.{◌≡◌, ◌↔◌, refl, ap, ◌∙◌, List, Option, some, Text, codes}
use chirpstack_udp_forwarder.Prelude.Options.{bound, some_injective}
use chirpstack_udp_forwarder.Config.{Server, default_server}
use chirpstack_udp_forwarder.Config.Toml.{Toml}
use chirpstack_udp_forwarder.Config.Deserialize.{
  members_of, with_default, server_names, deserialize_server, deserialize_servers,
}
use chirpstack_udp_forwarder.Config.Deserialize.Laws.{
  IsField, IsVec, with_default_iff, read_vec_iff,
}

module _ (T : Toml) where
  reader :
      {A : Type 0} (read : T.Value → Option A) (v : T.Value) (a : A)
      → (read v ≡ some a) ↔ (read v ≡ some a)
  reader read v a = (λ e. e, λ e. e)

  module _ {A : Type 0} (read : T.Value → Option A) where
    -- A field of a primitive type.
    abbrev pub Says : Text → A → List (Text × T.Value) → A → Type 0
    Says n d ms a = IsField n (λ v b. read v ≡ some b) d ms a

    pub says :
        (n : Text) (d : A) (ms : List (Text × T.Value)) (a : A)
        → (with_default n read d ms ≡ some a) ↔ Says n d ms a
    says n d ms a = with_default_iff read (λ v b. read v ≡ some b) (reader read) n d ms a

  abbrev pub IsServer : T.Value → Server → Type 0
  IsServer v s =
      (ms : List (Text × T.Value)) × (members_of server_names (T.shape v) ≡ some ms)
      × Says T.read_string (codes "server") default_server.server ms s.server
      × Says T.read_u64 (codes "keepalive_interval_secs") default_server.keepalive_interval_secs ms
          s.keepalive_interval_secs
      × Says T.read_u32 (codes "keepalive_max_failures") default_server.keepalive_max_failures ms
          s.keepalive_max_failures
      × Says T.read_bool (codes "forward_crc_ok") default_server.forward_crc_ok ms s.forward_crc_ok
      × Says T.read_bool (codes "forward_crc_invalid") default_server.forward_crc_invalid ms
          s.forward_crc_invalid
      × Says T.read_bool (codes "forward_crc_missing") default_server.forward_crc_missing ms
          s.forward_crc_missing

  deserialize_server_iff :
      (v : T.Value) (s : Server) → (deserialize_server T v ≡ some s) ↔ IsServer v s
  unfolding deserialize_server
  deserialize_server_iff v s = (read, written)
    where
      written : IsServer v s → deserialize_server T v ≡ some s
      written (ms, m, f1, f2, f3, f4, f5, f6) =
          rw
            (
              m,
              (says T.read_string _ _ ms s.server).1 f1,
              (says T.read_u64 _ _ ms s.keepalive_interval_secs).1 f2,
              (says T.read_u32 _ _ ms s.keepalive_max_failures).1 f3,
              (says T.read_bool _ _ ms s.forward_crc_ok).1 f4,
              (says T.read_bool _ _ ms s.forward_crc_invalid).1 f5,
              (says T.read_bool _ _ ms s.forward_crc_missing).1 f6,
            )
            refl

      read : deserialize_server T v ≡ some s → IsServer v s
      read h =
          let (ms, m, h1) = bound (members_of server_names (T.shape v)) _ s h in
          let (a1, e1, h2) = bound _ _ s h1 in
          let (a2, e2, h3) = bound _ _ s h2 in
          let (a3, e3, h4) = bound _ _ s h3 in
          let (a4, e4, h5) = bound _ _ s h4 in
          let (a5, e5, h6) = bound _ _ s h5 in
          let (a6, e6, h7) = bound _ _ s h6 in
          let q = some_injective _ _ h7 in
          (
            ms,
            m,
            (says T.read_string _ _ ms s.server).0 (e1 ∙ ap (λ r. some r.server) q),
            (says T.read_u64 _ _ ms s.keepalive_interval_secs).0
                (e2 ∙ ap (λ r. some r.keepalive_interval_secs) q),
            (says T.read_u32 _ _ ms s.keepalive_max_failures).0
                (e3 ∙ ap (λ r. some r.keepalive_max_failures) q),
            (says T.read_bool _ _ ms s.forward_crc_ok).0 (e4 ∙ ap (λ r. some r.forward_crc_ok) q),
            (says T.read_bool _ _ ms s.forward_crc_invalid).0
                (e5 ∙ ap (λ r. some r.forward_crc_invalid) q),
            (says T.read_bool _ _ ms s.forward_crc_missing).0
                (e6 ∙ ap (λ r. some r.forward_crc_missing) q),
          )

  abbrev pub AreServers : T.Value → List Server → Type 0
  AreServers v servers = IsVec IsServer (T.shape v) servers

  pub deserialize_servers_iff :
      (v : T.Value) (servers : List Server)
      → (deserialize_servers T v ≡ some servers) ↔ AreServers v servers
  unfolding deserialize_servers
  deserialize_servers_iff v servers =
      read_vec_iff (deserialize_server T) IsServer deserialize_server_iff (T.shape v) servers
