-- ===== src/Main/Laws.antt =====
-- When the program comes up, and with which threads.
use mathlib.Core.Path.{subst}
use chirpstack_udp_forwarder.Prelude.{
  ◌≡◌, ◌≢◌, ◌↔◌, ◌⊎◌, inl, inr, refl, sym, ap, ◌∙◌, List, [], ◌∷◌, ◌++◌, map, Option, none, some,
  Text, Bytes, codes, Bool, true, false, Bool-cases, All,
}
use chirpstack_udp_forwarder.Prelude.Outcome.{
  Outcome, ok, err, panic, unwrap, expect, ◌>>=◌, ok_injective, or_fail, chained, or_fail-ok,
}
use chirpstack_udp_forwarder.External.{External}
use chirpstack_udp_forwarder.Runtime.{Runtime}
use chirpstack_udp_forwarder.Config.{Server, Configuration}
use chirpstack_udp_forwarder.Config.Toml.{Toml}
use chirpstack_udp_forwarder.Config.Load
use chirpstack_udp_forwarder.Sockets.{Zmq, command_socket}
use chirpstack_udp_forwarder.Logging.{Log, setup}
use chirpstack_udp_forwarder.Helpers.{get_gateway_id}
use chirpstack_udp_forwarder.Helpers.Laws.{Answers, get_gateway_id_iff}
use chirpstack_udp_forwarder.Main.{
  Spawned, forwarder, metrics, metrics_thread, threads, Cli, join_all, main,
}

expected {κ} :
    {E : Type κ} {A B : Type 0} (o : Outcome E A) (f : A → Outcome (Unit {0}) B) (b : B)
    → expect o >>= f ≡ ok b
    → (a : A) × (o ≡ ok a) × (f a ≡ ok b)
expected (ok a) f b h = (a, refl, h)
expected (err e) f b h = cc
expected panic f b h = cc

unwrapped :
    {A B : Type 0} (o : Option A) (f : A → Outcome (Unit {0}) B) (b : B)
    → unwrap o >>= f ≡ ok b
    → (a : A) × (o ≡ some a) × (f a ≡ ok b)
unwrapped none f b h = cc
unwrapped (some a) f b h = (a, refl, h)

-- The threads of a program that comes up: a forwarder for each server, in order, and then the metrics
-- server if its address is not empty.
abbrev pub Staffs : Configuration → (gateway_id : Bytes) → List Server → List Spawned → Type 0
Staffs conf id [] ts =
    ((conf.udp_forwarder.metrics_bind ≡ []) × (ts ≡ []))
    ⊎ ((conf.udp_forwarder.metrics_bind ≢ []) × (ts ≡ metrics conf.udp_forwarder.metrics_bind ∷ []))
Staffs conf id (server ∷ servers) [] = ⊥
Staffs conf id (server ∷ servers) (t ∷ ts) =
    (t ≡ forwarder server conf.concentratord.event_url conf.concentratord.command_url id)
    × Staffs conf id servers ts

metrics_thread_cases :
    (bind : Text)
    → ((bind ≡ []) × (metrics_thread bind ≡ []))
      ⊎ ((bind ≢ []) × (metrics_thread bind ≡ metrics bind ∷ []))
metrics_thread_cases [] = inl (refl, refl)
metrics_thread_cases (c ∷ bind) = inr (λ e. cc, refl)

module _ (conf : Configuration) (id : Bytes) where
  abbrev forwarders : List Server → List Spawned
  forwarders servers =
      map
        (λ server. forwarder server conf.concentratord.event_url conf.concentratord.command_url id)
        servers

  staffed :
      (servers : List Server)
      → Staffs conf id servers
          (forwarders servers ++ metrics_thread conf.udp_forwarder.metrics_bind)
  staffed [] = metrics_thread_cases conf.udp_forwarder.metrics_bind
  staffed (server ∷ servers) = (refl, staffed servers)

  staff_unique :
      (servers : List Server) (ts : List Spawned)
      → Staffs conf id servers ts
      → ts ≡ forwarders servers ++ metrics_thread conf.udp_forwarder.metrics_bind
  staff_unique [] ts h = elim (metrics_thread_cases conf.udp_forwarder.metrics_bind) [
    | inl (e, q) ↦ elim h [ inl (_, r) ↦ r ∙ sym q | inr (n, r) ↦ absurd (n e) ]
    | inr (n, q) ↦ elim h [ inl (e, r) ↦ absurd (n e) | inr (_, r) ↦ r ∙ sym q ]
  ]
  staff_unique (server ∷ servers) [] h = absurd h
  staff_unique (server ∷ servers) (t ∷ ts) (e, h) = rw e (
      ap (λ l. forwarder server conf.concentratord.event_url conf.concentratord.command_url id ∷ l)
        (staff_unique servers ts h))

-- Whether all the threads return.
abbrev pub Waits : (Spawned → Bool) → List Spawned → Bool → Type 0
Waits returns ts b = (b ≡ true) ↔ All (λ t. returns t ≡ true) ts

join_all-Waits :
    (returns : Spawned → Bool) (ts : List Spawned) → Waits returns ts (join_all returns ts)
unfolding join_all
join_all-Waits returns [] = (λ e. tt, λ e. refl)
join_all-Waits returns (t ∷ ts) =
    let (there, back) = join_all-Waits returns ts in
    elim (Bool-cases (returns t)) [
      | inl e ↦ (λ h. (e, there (rw e at h)), λ (_, h). rw (e, back h) refl)
      | inr e ↦ (λ h. cc (rw e at h), λ (f, h). cc)
    ]

truths : (b c : Bool) → (b ≡ true) ↔ (c ≡ true) → b ≡ c
truths true c (f, g) = sym (f refl)
truths false true (f, g) = g refl
truths false false h = refl

module _ {X : External} (R : Runtime X) (Z : Zmq R) (L : Log) (T : Toml) (fs : Text → Option Text)
    (parse : List Text → Option Cli) (args : List Text) (vars : Load.Vars) where
  -- All that `main` waits for went well: clap takes the arguments, the configuration is read, its log
  -- level is one and the logger is set up, and the concentratord tells its gateway id.
  pub record ComesUp (conf : Configuration) (gateway_id : Bytes) : Type 0 where
    pub cli : Cli
    pub level : L.Level
    pub sock : R.Sock
    pub parsed : parse args ≡ some cli
    pub configured : Load.get T fs cli.config vars ≡ ok conf
    pub levelled : L.level_from_str conf.udp_forwarder.log_level ≡ some level
    pub logged :
        setup L (codes "chirpstack-udp-forwarder") level conf.udp_forwarder.log_to_syslog ≡ ok tt
    pub connected : command_socket Z conf.concentratord.command_url ≡ ok sock
    pub answered : Answers R sock gateway_id

  -- `main` spawns some threads and returns or not exactly if it comes up with a configuration and a
  -- gateway id for which they are one forwarder for each server of the configuration, in order, all
  -- with this gateway id and the two addresses of the concentratord, and then the metrics server if
  -- its address is not empty, and all of them return or not.
  pub main_iff :
      (returns : Spawned → Bool) (ts : List Spawned) (b : Bool)
      → (main R Z L T fs parse returns args vars ≡ ok (ts, b)) ↔ (
          (conf : Configuration) × (id : Bytes) × ComesUp conf id
          × Staffs conf id conf.udp_forwarder.servers ts
          × Waits returns ts b)
  unfolding main threads
  main_iff returns ts b = (
    spawned,
    λ (conf, id, up, e, w).
        let all = staff_unique conf id conf.udp_forwarder.servers ts e in
        spawns conf id up
        ∙ (ap (λ l. ok (l, join_all returns l)) (sym all) ∙ ap (λ c. ok (ts, c)) (same_end b w)),
  )
    where
      same_end : (c : Bool) → Waits returns ts c → join_all returns ts ≡ c
      same_end c (f, g) =
          let (there, back) = join_all-Waits returns ts in
          truths (join_all returns ts) c (λ e. g (there e), λ e. back (f e))

      spawns :
          (conf : Configuration) (id : Bytes)
          → ComesUp conf id
          → main R Z L T fs parse returns args vars
            ≡ ok (threads conf id, join_all returns (threads conf id))
      spawns conf id up =
          rw
            (
              up.parsed,
              up.configured,
              up.levelled,
              up.logged,
              up.connected,
              (get_gateway_id_iff R up.sock id).1 up.answered,
            )
            refl

      spawned :
          main R Z L T fs parse returns args vars ≡ ok (ts, b)
          → (conf : Configuration) × (id : Bytes) × ComesUp conf id
            × Staffs conf id conf.udp_forwarder.servers ts
            × Waits returns ts b
      spawned h =
          let (cli, parsed, h0) = chained (or_fail (parse args) tt) _ (ts, b) h in
          let (conf, configured, h1) = expected (Load.get T fs cli.config vars) _ (ts, b) h0 in
          let (level, levelled, h2) =
            unwrapped (L.level_from_str conf.udp_forwarder.log_level) _ (ts, b) h1 in
          let (_, logged, h3) =
            expected
              (setup L (codes "chirpstack-udp-forwarder") level conf.udp_forwarder.log_to_syslog) _
              (ts, b) h2 in
          let (sock, connected, h4) =
            expected (command_socket Z conf.concentratord.command_url) _ (ts, b) h3 in
          let (id, answered, h5) = expected (get_gateway_id R sock) _ (ts, b) h4 in
          let pair = ok_injective _ _ h5 in
          (
            conf,
            id,
            record {
              cli = cli;
              level = level;
              sock = sock;
              parsed = or_fail-ok (parse args) tt cli parsed;
              configured = configured;
              levelled = levelled;
              logged = logged;
              connected = connected;
              answered = (get_gateway_id_iff R sock id).0 answered;
            },
            subst (λ p. Staffs conf id conf.udp_forwarder.servers p.0) pair
                (staffed conf id conf.udp_forwarder.servers),
            subst (λ p. Waits returns p.0 p.1) pair (join_all-Waits returns (threads conf id)),
          )
