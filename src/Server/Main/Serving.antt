-- ===== src/Server/Main/Serving.antt =====
-- From the environment to the tokens that the running server answers with.
use sponsor.Common.{subst, ◌≡◌, ◌<◌, arith, some, List, [], ◌∷◌, All}
use sponsor.Common.Result.{Result, ok}
use sponsor.Common.Action.{Ends, Ends-ok, Ends-bind, lift}
use sponsor.Common.Words.{u64_max}
use sponsor.Common.Text.{Text, lit}
use sponsor.Crates.{Crates}
use sponsor.Server.Captcha.{Post, meeting, as_verifier}
use sponsor.Server.State.Boot.{build-IsBooted}
use sponsor.Server.Config.{ServerConfig, Env, from_env}
use sponsor.Server.Store.Redb.{Redb}
use sponsor.Server.Treasury.{Client}
use sponsor.Server.State.{Host, build}
use sponsor.Server.State.Ready.{build-IsConsistent}
use sponsor.Server.Http.{token_json, now_unix}
use sponsor.Server.Http.Fund.Ledger.{IsConsistent, IsLedger}
use sponsor.Server.Http.Router.{Axum, Assets, Visit}
use sponsor.Server.Http.Router.Ledger.{serve-IsLedger}
use sponsor.Server.Http.Router.Tokens.{Given, serve_one-Given}
use sponsor.Server.Main.{
  Arrival, Server, start, Event, request_in, tick_due, Running, visit_of, on_event, on_events,
}

module _ (crates : Crates) (redb : Redb crates.Address crates.address_discrete)
    (Chain : Type 0) where
  open redb use {Db}

  module _ {Provider : Type 0} (client : Client crates Chain Provider)
      (load_signer : Text → Text → Result crates.PrivateKey) (http : Post)
      (listen : crates.SocketAddr → Result (Unit {0})) (e : Env)
      (host : Host crates redb.Disk Chain) where
    -- A server that listens was built from a configuration that the environment held.
    record IsStarted (server : Server crates redb Chain) : Type 0 where
      cfg : ServerConfig crates
      read : from_env crates e ≡ ok cfg
      built :
          (build crates redb client load_signer http e cfg host).0 ≡ ok (server.state, server.store)
      bound : listen cfg.bind ≡ ok tt

    start-IsStarted :
        Ends
          (λ (server : Server crates redb Chain) h. IsStarted server)
          (λ h. Unit)
          (start crates redb Chain client load_signer http listen e host)
    unfolding start
    start-IsStarted =
        Ends-bind _ _ (lift (from_env crates e)) _ host
          (λ cfg read.
            Ends-bind _ _ (build crates redb client load_signer http e cfg) _ host
              (λ built booted.
                Ends-bind _ _ (lift (listen cfg.bind)) _ _
                  (λ u bound. record { cfg = cfg; read = read; built = booted; bound = bound })
                  (λ x no. tt))
              (λ x no. tt))
          (λ x no. tt)

    start-IsConsistent :
        (server : Server crates redb Chain)
        → (start crates redb Chain client load_signer http listen e host).0 ≡ ok server
        → IsConsistent crates redb server.state
    start-IsConsistent server started =
        let s = Ends-ok _ _ _ _ start-IsStarted started in
        build-IsConsistent crates redb client load_signer http e s.cfg host
          (server.state, server.store) s.read s.built

  module _ {Req : Type 0} (axum : Axum Req) (assets : Assets)
      (server : Server crates redb Chain) where
    -- The clock that an event reads is before the last 64-bit second.
    abbrev pub InTime : Event crates redb Chain Req → Type 0
    InTime (request_in a) = now_unix a.time < u64_max
    InTime (tick_due drift) = Unit

    on_event-IsLedger :
        IsConsistent crates redb server.state
        → (event : Event crates redb Chain Req) (r : Running crates redb Chain) → InTime event
        → IsLedger crates redb server.state r.db
        → IsLedger crates redb server.state
            (on_event crates redb Chain axum assets server event r).1.db
    unfolding on_event
    on_event-IsLedger c (request_in a) r now l =
        serve-IsLedger crates redb axum assets server.state
          (visit_of crates redb Chain axum assets server a) c (omega arith) r.db l
    on_event-IsLedger c (tick_due drift) r now l = l

    on_events-IsLedger :
        IsConsistent crates redb server.state
        → (events : List (Event crates redb Chain Req)) (r : Running crates redb Chain)
        → All InTime events
        → IsLedger crates redb server.state r.db
        → IsLedger crates redb server.state
            (on_events crates redb Chain axum assets server events r).db
    unfolding on_events
    on_events-IsLedger c [] r times l = l
    on_events-IsLedger c (event ∷ events) r (now, times) l =
        on_events-IsLedger c events (on_event crates redb Chain axum assets server event r).1 times
          (on_event-IsLedger c event r now l)

    on_event-Given :
        IsConsistent crates redb server.state
        → 0 < server.state.issuer.ttl_secs
        → (a : Arrival Req) (token : Text) (r : Running crates redb Chain)
        → now_unix a.time < u64_max
        → IsLedger crates redb server.state r.db
        → (on_event crates redb Chain axum assets server (request_in a) r).0
          ≡ some (token_json token)
        → Given crates redb axum assets server.state
            (visit_of crates redb Chain axum assets server a)
            token
    unfolding on_event
    on_event-Given c ttl a token r now l said =
        serve_one-Given crates redb axum assets server.state c ttl
          (visit_of crates redb Chain axum assets server a) token r.db now l (cc)

  -- A request at which the captcha site is asked with the secret of a configuration.
  abbrev pub asking : {Req : Type 0} → ServerConfig crates → Arrival Req → Visit Req
  asking cfg a = record {
    request = a.request;
    time = a.time;
    verifier = as_verifier (record {
      secret = cfg.turnstile_secret;
      http = a.site;
      endpoint = lit "https://challenges.cloudflare.com/turnstile/v0/siteverify";
    });
  }

  -- A server that `main` starts from its environment over a store that is a ledger, with a
  -- lifetime of more than 0 seconds, and that any requests and ticks of the watcher reach at times
  -- before the last 64-bit second, answers a request with a token only when it is a `GET
  -- /capability`, or a `POST /fund` whose captcha the site passed when asked with the secret of
  -- the configuration read from the environment, the request names an address, and the token is
  -- that of a record that the issuer signed for this address and that has not expired.
  pub start-Given :
      {Provider Req : Type 0} (client : Client crates Chain Provider)
      (load_signer : Text → Text → Result crates.PrivateKey) (http : Post)
      (listen : crates.SocketAddr → Result (Unit {0})) (e : Env)
      (host : Host crates redb.Disk Chain) (axum : Axum Req) (assets : Assets)
      (server : Server crates redb Chain) (events : List (Event crates redb Chain Req))
      (a : Arrival Req) (token : Text) (chain : Chain)
      → (start crates redb Chain client load_signer http listen e host).0 ≡ ok server
      → IsLedger crates redb server.state server.store
      → 0 < server.state.issuer.ttl_secs
      → All (InTime axum assets server) events
      → now_unix a.time < u64_max
      → (on_event crates redb Chain axum assets server (request_in a) (
          on_events crates redb Chain axum assets server events
            (record { db = server.store; chain = chain }))).0
        ≡ some (token_json token)
      → (cfg : ServerConfig crates) × (from_env crates e ≡ ok cfg)
        × Given crates redb axum assets server.state (asking cfg a) token
  start-Given client load_signer http listen e host axum assets server events a token chain started
        l ttl times now said =
      let s = Ends-ok _ _ _ _ (start-IsStarted client load_signer http listen e host) started in
      let booted =
        Ends-ok _ _ _ _ (build-IsBooted crates redb client load_signer http e s.cfg host) s.built in
      let c = start-IsConsistent client load_signer http listen e host server started in
      let r =
        on_events crates redb Chain axum assets server events
          (record { db = server.store; chain = chain }) in
      (
        s.cfg,
        s.read,
        subst
            (λ v.
              Given crates redb axum assets server.state
                (record { request = a.request; time = a.time; verifier = meeting a.site v }) token)
            booted.turnstile
            (on_event-Given axum assets server c ttl a token r now
              (on_events-IsLedger axum assets server c events
                (record { db = server.store; chain = chain }) times l)
              said),
      )
