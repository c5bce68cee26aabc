-- ===== src/Server/State/Boot.antt =====
-- What a server that booted has checked.
use sponsor.Common.{◌≡◌, refl, ap, subst, sym, ◌∙◌, true, Option, none, some}
use sponsor.Common.Result.{Result, ok, err, ensure, ensure-eq-ok, ◌>>=◌}
use sponsor.Common.Action.{lift, Ends, Ends-ok, Ends-bind, Ends-then}
use sponsor.Common.Text.{Text, lit}
use sponsor.Crates.{Crates}
use sponsor.Server.Issuer.{new_issuer, owner_address}
use sponsor.Server.Captcha.{Post, Turnstile, as_verifier, new_turnstile}
use sponsor.Server.Config.{ServerConfig, Env, load_treasury_signer, build_issuer, env_var}
use sponsor.Server.Treasury.{
  Client, Treasury, DecdnTreasury, Pool, as_treasury, pool_owner, connect,
}
use sponsor.Server.Store.Redb.{Redb}
use sponsor.Server.Store.Table.{open_store}
use sponsor.Server.State.{AppState, Host, holds, on_disk, on_chain, build, build_treasury}

holds_true {ℓ} : {P : Type ℓ} (d : Dec P) → holds d ≡ true → P
holds_true (yes p) h = p
holds_true (no q) h = cc

module _ (crates : Crates) (redb : Redb crates.Address crates.address_discrete)
    {Chain Provider : Type 0} (client : Client crates Chain Provider)
    (load_signer : Text → Text → Result crates.PrivateKey) (http : Post) where
  open crates use {Address, PrivateKey, address_discrete, voucher_domain, key_address}

  -- Where the captchas are checked, with the secret of the configuration.
  abbrev pub site_of : ServerConfig crates → Post → Turnstile
  site_of cfg answers = record {
    secret = cfg.turnstile_secret;
    http = answers;
    endpoint = lit "https://challenges.cloudflare.com/turnstile/v0/siteverify";
  }

  -- The key is the one in the configured keystore under the password of the environment, the
  -- treasury is that of this key at the configured contract, with the token that the contract names,
  -- the parts of the state fit one another and the configuration, and the contract said that the
  -- address of the key owns the configured pool.
  pub record IsBooted (e : Env) (cfg : ServerConfig crates) (chain : Chain)
      (state : AppState crates Chain) (chain' : Chain) : Type 0 where
    pub cfg_is : state.cfg ≡ cfg
    pub turnstile : state.turnstile ≡ as_verifier (site_of cfg http)
    pub password : Text
    pub password_set : e "SPONSOR_TREASURY_PASSWORD" ≡ some password
    pub loaded : load_signer cfg.treasury_keystore password ≡ ok state.issuer.signer
    pub provider : Provider
    pub connected : client.build_provider cfg.rpc_url state.issuer.signer ≡ ok provider
    pub token : Address
    pub token_read : (client.usdc cfg.payment_pool provider chain).0 ≡ ok token
    pub treasury :
        state.treasury
        ≡ as_treasury crates client (record {
          provider = provider;
          self_address = key_address state.issuer.signer;
          token = token;
          payment_pool = cfg.payment_pool;
        })
    pub pool : Pool crates
    pub pool_read :
        client.get_pool cfg.payment_pool provider cfg.pool_id
          (client.usdc cfg.payment_pool provider chain).1
        ≡ (ok pool, chain')
    pub owned : pool.owner ≡ key_address state.issuer.signer
    pub pool_id : state.issuer.pool_id ≡ cfg.pool_id
    pub spending_cap : state.issuer.spending_cap ≡ cfg.capability_cap.micros
    pub ttl_secs : state.issuer.ttl_secs ≡ cfg.capability_ttl_secs
    pub domain : state.issuer.domain ≡ voucher_domain cfg.chain_id cfg.payment_pool

  password_of :
      (e : Env) (cfg : ServerConfig crates) (signer : PrivateKey)
      → load_treasury_signer crates load_signer e cfg ≡ ok signer
      → (password : Text) × (e "SPONSOR_TREASURY_PASSWORD" ≡ some password)
        × (load_signer cfg.treasury_keystore password ≡ ok signer)
  unfolding load_treasury_signer env_var
  password_of e cfg signer h = from (e "SPONSOR_TREASURY_PASSWORD") h
    where
      from :
          (o : Option Text)
          → ((elim o [ none ↦ err "missing env" | some v ↦ ok v ])
              >>= (λ password. load_signer cfg.treasury_keystore password))
            ≡ ok signer
          → (password : Text) × (o ≡ some password)
            × (load_signer cfg.treasury_keystore password ≡ ok signer)
      from none h = absurd (cc)
      from (some password) h = (password, refl, h)

  abbrev treasury_at :
      ServerConfig crates → PrivateKey → Provider → Address → DecdnTreasury crates Provider
  treasury_at cfg signer provider token = record {
    provider = provider;
    self_address = key_address signer;
    token = token;
    payment_pool = cfg.payment_pool;
  }

  -- A treasury that was connected.
  record IsConnected (cfg : ServerConfig crates) (signer : PrivateKey) (chain : Chain)
      (treasury : Treasury crates Chain) (chain' : Chain) : Type 0 where
    provider : Provider
    connected : client.build_provider cfg.rpc_url signer ≡ ok provider
    token : Address
    token_read : (client.usdc cfg.payment_pool provider chain).0 ≡ ok token
    treasury_is : treasury ≡ as_treasury crates client (treasury_at cfg signer provider token)
    chain_is : chain' ≡ (client.usdc cfg.payment_pool provider chain).1

  build_treasury-IsConnected :
      (cfg : ServerConfig crates) (signer : PrivateKey) (chain : Chain)
      → Ends
          (IsConnected cfg signer chain)
          (λ c. Unit {0})
          (build_treasury crates redb client load_signer http cfg signer chain)
  unfolding build_treasury connect
  build_treasury-IsConnected cfg signer chain =
      Ends-then
        (λ (t : DecdnTreasury crates Provider) c.
          IsConnected cfg signer chain (as_treasury crates client t) c)
        _ _
        (connect crates client (record {
          rpc_url = cfg.rpc_url;
          payment_pool = cfg.payment_pool;
          chain_id = cfg.chain_id;
          signer = signer;
        }))
        _ chain
        (Ends-bind _ _ (lift (client.build_provider cfg.rpc_url signer)) _ chain
          (λ provider connected.
            Ends-bind _ _ (client.usdc cfg.payment_pool provider) _ chain
              (λ token read. record {
                provider = provider;
                connected = connected;
                token = token;
                token_read = read;
                treasury_is = refl;
                chain_is = refl;
              })
              (λ e failed. tt))
          (λ e failed. tt))
        (λ t c h. h)

  owner_read :
      (t : DecdnTreasury crates Provider) (id : crates.B256) (chain : Chain)
      → Ends
          (λ (owner : Address) c.
            (pool : Pool crates) × (client.get_pool t.payment_pool t.provider id chain
              ≡ (ok pool, c))
            × (pool.owner ≡ owner))
          (λ c. Unit {0})
          (pool_owner crates client t id chain)
  unfolding pool_owner
  owner_read t id chain =
      let x = client.get_pool t.payment_pool t.provider id chain in
      Ends-bind _ _ (client.get_pool t.payment_pool t.provider id) _ chain
        (λ pool read. (pool, ap (λ (r : Result (Pool crates)). (r, x.1)) read, refl))
        (λ e failed. tt)

  -- What the connected treasury was told about the pool's owner.
  owner_told :
      (treasury : Treasury crates Chain) (t : DecdnTreasury crates Provider) (id : crates.B256)
      (chain chain1 : Chain) (owner : Address)
      → treasury ≡ as_treasury crates client t
      → chain1 ≡ chain
      → (treasury.pool_owner id chain1).0 ≡ ok owner
      → (pool : Pool crates) × (client.get_pool t.payment_pool t.provider id chain
          ≡ (ok pool, (treasury.pool_owner id chain1).1))
        × (pool.owner ≡ owner)
  owner_told treasury t id chain chain1 owner is at said =
      subst
        (λ (y : Result Address × Chain).
          y.0 ≡ ok owner
          → (pool : Pool crates) × (client.get_pool t.payment_pool t.provider id chain
              ≡ (ok pool, y.1))
            × (pool.owner ≡ owner))
        (sym (
          ap (λ (tr : Treasury crates Chain). tr.pool_owner id chain1) is
          ∙ ap (pool_owner crates client t id) at))
        (Ends-ok _ _ _ _ (owner_read t id chain)) said

  booted :
      (e : Env) (cfg : ServerConfig crates) (chain : Chain) (signer : PrivateKey)
      (treasury : Treasury crates Chain) (chain1 : Chain) (owner : Address)
      → load_treasury_signer crates load_signer e cfg ≡ ok signer
      → IsConnected cfg signer chain treasury chain1
      → (treasury.pool_owner cfg.pool_id chain1).0 ≡ ok owner
      → owner ≡ key_address signer
      → IsBooted e cfg chain
          (record {
            treasury = treasury;
            issuer = build_issuer crates cfg signer;
            turnstile = as_verifier (new_turnstile cfg.turnstile_secret http);
            cfg = cfg;
          })
          (treasury.pool_owner cfg.pool_id chain1).1
  unfolding build_issuer new_issuer new_turnstile
  booted e cfg chain signer treasury chain1 owner loaded c read same =
      let (password, set, key) = password_of e cfg signer loaded in
      let (pool, told, owned) =
        owner_told treasury (treasury_at cfg signer c.provider c.token) cfg.pool_id _ chain1 owner
          c.treasury_is c.chain_is read in
      record {
        cfg_is = refl;
        turnstile = refl;
        password = password;
        password_set = set;
        loaded = key;
        provider = c.provider;
        connected = c.connected;
        token = c.token;
        token_read = c.token_read;
        treasury = c.treasury_is;
        pool = pool;
        pool_read = told;
        owned = owned ∙ same;
        pool_id = refl;
        spending_cap = refl;
        ttl_secs = refl;
        domain = refl;
      }

  -- A server that boots runs with the given configuration; its issuer signs with the key that the
  -- configured keystore gives up under the password of the environment, within the configured cap,
  -- lifetime, pool and domain; its treasury is that of this key at the configured contract, with
  -- the token that the contract named; its captchas are checked with the configured secret; and
  -- the contract said that the address of this key owns the configured pool.
  pub build-IsBooted :
      (e : Env) (cfg : ServerConfig crates) (host : Host crates redb.Disk Chain)
      → Ends
          (λ (r : AppState crates Chain × redb.Db) host'. IsBooted e cfg host.chain r.0 host'.chain)
          (λ host'. Unit)
          (build crates redb client load_signer http e cfg host)
  unfolding build build_issuer new_issuer owner_address
  build-IsBooted e cfg host =
      Ends-bind _ _ (on_disk crates (open_store crates redb cfg.data_dir)) _ host
        (λ store opened.
          Ends-bind _ _ (lift (load_treasury_signer crates load_signer e cfg)) _ _
            (λ signer loaded.
              Ends-bind _ _
                (on_chain crates (build_treasury crates redb client load_signer http cfg signer)) _
                _
                (λ treasury connected.
                  Ends-bind _ _ (on_chain crates (treasury.pool_owner cfg.pool_id)) _ _
                    (λ owner read.
                      Ends-bind _ _
                        (lift (
                          ensure
                            (holds (
                              address_discrete owner
                                (owner_address crates (build_issuer crates cfg signer))))
                            "pool not owned by the signing wallet"))
                        _ _
                        (λ u checked.
                          booted e cfg host.chain signer treasury _ owner loaded
                            (Ends-ok _ _ _ _ (build_treasury-IsConnected cfg signer host.chain)
                              connected)
                            read (holds_true (address_discrete owner _) (ensure-eq-ok _ _ checked)))
                        (λ x failed. tt))
                    (λ x failed. tt))
                (λ x failed. tt))
            (λ x failed. tt))
        (λ x failed. tt)
