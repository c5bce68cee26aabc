-- ===== src/Lib.antt =====
-- The deCDN sponsor: a gateway that gives a captcha-gated download capability to a client, and the
-- wrapper that fetches one and runs the download with it.
--
-- A request `POST /fund` parses the client's address, asks the captcha verifier, and then reads the
-- grant store: a record that has not lapsed is answered again, otherwise the issuer signs a new
-- capability and the store keeps it. `GET /capability` only reads the store. Beside the handlers a
-- watcher tops the pool up, and the boot sequence checks that the wallet that signs owns the pool.
--
-- Which file is which code (paths from the repository's root):
--   Server/Money              crates/server/src/money.rs
--   Server/Store              crates/server/src/store.rs: GrantRecord, encode, decode
--   Server/Store/Redb         the embedded database that store.rs calls, an interface
--   Server/Store/Table        store.rs: open, put_grant, get_grant
--   Server/Issuer             crates/server/src/issuer.rs
--   Server/Release            crates/server/src/config.rs: ReleasePin, is_release_tag
--   Server/Config             config.rs: env, env_u64, ServerConfig and its builders
--   Server/Treasury           crates/server/src/treasury.rs
--   Server/Captcha            crates/server/src/captcha.rs
--   Server/State              crates/server/src/state.rs: AppState, build
--   Server/PoolWatch          crates/server/src/pool_watch.rs
--   Server/Http               crates/server/src/http/mod.rs: answers, now_unix, parse_client
--   Server/Http/Capability    crates/server/src/http/capability.rs
--   Server/Http/Fund          crates/server/src/http/fund.rs: submit
--   Server/Http/Interleaved   submit beside other requests, one transaction at a time
--   Server/Http/Page          fund.rs: page, is_hex_of_len
--   Server/Http/Installer     crates/server/src/http/installer.rs
--   Server/Http/Router        http/mod.rs: router, over what axum makes of a request
--   Server/Main               crates/server/src/main.rs
--   Wrapper/Session           crates/wrapper/src/session.rs: normalize_hash
--   Wrapper/Files             the calls of std::fs that session.rs makes
--   Wrapper/Session/Identity  keystores, JSON and random bytes, an interface
--   Wrapper/Session/State     session.rs: Session, and its helpers on files
--   Wrapper/Runner            crates/wrapper/src/runner.rs: PullArgs
--   Wrapper/Api               crates/wrapper/src/api.rs
--   Wrapper/Keystore          crates/wrapper/src/keystore.rs
--   Wrapper/Config            crates/wrapper/src/config.rs
--   Wrapper/Browser           flow.rs: the link that is printed, open_in_browser
--   Wrapper/Flow              crates/wrapper/src/flow.rs, runner.rs: run_pull
--   Wrapper/Main              crates/wrapper/src/main.rs
--   System                    the wrapper of crates/wrapper with the server of crates/server behind it
--
-- The other modules below these hold their proofs, and the modules Tests run them on small inputs.
-- Server/Tests/Units and Wrapper/Tests/Units are the unit tests of the two crates, run on the model;
-- two of the wrapper's are not among them, since they ask for what the model leaves out: the modes of
-- parent directories (state_dirs_are_created_private) and TOML text (ignores_unknown_fields).
-- Server/Tests/Support is crates/server/src/test_support.rs, and Server/Tests/Contract the tests of
-- crates/server/tests/http_contract.rs that do not read the script templates.
--
-- Text is a list of Unicode scalars and its bytes are UTF-8 (Common/Text). A fallible call is a
-- Result whose error is a message (Common/Result); a call that changes a state takes it and gives it
-- back (Common/Action), and a failed call gives its state back too. Numbers are natural numbers with
-- the 64-bit bounds written out (Common/Words). Clients of other crates are parameters: Crates holds
-- the types and functions of alloy and decdn_incentive with what the code relies on, Redb the
-- database, Client the chain, Post and Net the HTTP clients, Net the clock as well, Console the terminal, Axum what axum
-- makes of a request. Samples and the Tests give all of them concretely.
--
-- The poll of the wrapper runs on fuel, one request more than the time-out holds sleeps and one for
-- the remainder: with a clock that moves on at least as far as each sleep, that is enough.
--
-- Requests are handled one after the other (Server/Http/Router), or with the parts of `submit`
-- interleaved at its awaits and transactions in an order that is given (Server/Http/Interleaved).
--
-- In System the gateway that the wrapper asks is the server: before each request of the wrapper the
-- server handles any others, and an answer may be lost.
--
-- Not modelled: the command line, tracing, the wording of errors with their context, paths whose
-- metadata cannot be read (`exists` and `is_file` say no to them in the source), and the shell,
-- PowerShell and HTML templates, which the handlers take as texts.

pub mod Common
pub mod Crates
pub mod Samples
pub mod Server
pub mod System
pub mod Wrapper
