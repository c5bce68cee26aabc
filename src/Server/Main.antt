-- ===== src/Server/Main.antt =====
-- crates/server/src/main.rs: the start of the server, and what it does from then on.
pub mod Serving
use sponsor.Common.{ℕ, Option, none, some, List, [], ◌∷◌}
use sponsor.Common.Result.{Result}
use sponsor.Common.Action.{Action, ◌>>=◌, ◌>>◌, lift, pure}
use sponsor.Common.Text.{Text}
use sponsor.Crates.{Crates}
use sponsor.Server.Captcha.{Post, meeting}
use sponsor.Server.Config.{ServerConfig, Env, from_env}
use sponsor.Server.Money.{MicroUsdc}
use sponsor.Server.PoolWatch.{tick}
use sponsor.Server.Store.Redb.{Redb}
use sponsor.Server.Treasury.{Client}
use sponsor.Server.State.{AppState, Host, build}
use sponsor.Server.Http.{Response, SystemTime}
use sponsor.Server.Http.Router.{Axum, Assets, Visit, serve}

-- A request, with its time and what the captcha site answers to the form that is posted to it.
pub record Arrival (Req : Type 0) : Type 0 where
  pub request : Req
  pub time : SystemTime
  pub site : Post

module _ (crates : Crates) (redb : Redb crates.Address crates.address_discrete)
    (Chain : Type 0) where
  open crates use {B256, PrivateKey}
  open redb use {Db}

  -- What `main` hands to the watcher and the listener.
  pub record Server : Type 0 where
    pub state : AppState crates Chain
    pub store : Db
    pub watch_interval : ℕ
    pub low_water : MicroUsdc
    pub refill : MicroUsdc
    pub pool_id : B256

  module _ {Provider : Type 0} (client : Client crates Chain Provider)
      (load_signer : Text → Text → Result PrivateKey) (http : Post)
      (listen : crates.SocketAddr → Result (Unit {0})) where
    -- `main`, until the server listens.
    unfoldable pub start : Env → Action (Host crates redb.Disk Chain) Server
    start e = do
      cfg ← lift (from_env crates e)
      built ← build crates redb client load_signer http e cfg
      lift (listen cfg.bind)
      pure (record {
        state = built.0;
        store = built.1;
        watch_interval = cfg.pool_watch_interval_secs;
        low_water = cfg.pool_low_water;
        refill = cfg.pool_refill;
        pool_id = cfg.pool_id;
      })

  -- A request comes in, or the watcher's interval is over and the chain has moved by itself.
  pub data Event (Req : Type 0) : Type 0 where
    request_in : Arrival Req → Event Req
    tick_due : (Chain → Chain) → Event Req

  -- What the tasks of the server share.
  pub record Running : Type 0 where
    pub db : Db
    pub chain : Chain

  module _ {Req : Type 0} (axum : Axum Req) (assets : Assets) (server : Server) where
    -- The verifier is the one of the state, with what the captcha site answers to it.
    abbrev pub visit_of : Arrival Req → Visit Req
    visit_of a = record {
      request = a.request;
      time = a.time;
      verifier = meeting a.site server.state.turnstile;
    }

    unfoldable pub on_event : Event Req → Running → Option Response × Running
    on_event (request_in a) r =
        let (resp, db') = serve crates redb axum assets server.state (visit_of a) r.db in
        (some resp, record { db = db'; chain = r.chain })
    on_event (tick_due drift) r =
        let (logged, chain') =
          tick crates server.state.treasury server.low_water server.refill server.pool_id
            (drift r.chain) in
        (none, record { db = r.db; chain = chain' })

    unfoldable pub on_events : List (Event Req) → Running → Running
    unfolding on_event
    on_events [] r = r
    on_events (e ∷ events) r = on_events events (on_event e r).1
