-- ===== src/Server/Http/Installer.antt =====
-- crates/server/src/http/installer.rs: the templated installer scripts.
pub mod Filled
use sponsor.Common.Text.{Text, lit}
use sponsor.Common.Text.Number.{show_u64}
use sponsor.Common.Text.Replace.{replace}
use sponsor.Crates.{Crates}
use sponsor.Server.Config.{ServerConfig}
use sponsor.Server.State.{AppState}
use sponsor.Server.Http.{Response, ok_200, script}

module _ (crates : Crates) where
  open crates use {show_address}

  -- render
  unfoldable pub render : Text → ServerConfig crates → Text
  render template cfg =
      let t = replace (lit "{{DECDN_RELEASE}}") cfg.decdn_release.tag template in
      let t = replace (lit "{{DECDN_SUMS_SHA256}}") cfg.decdn_release.sums_sha256 t in
      let t = replace (lit "{{WRAPPER_RELEASE}}") cfg.wrapper_release.tag t in
      let t = replace (lit "{{WRAPPER_SUMS_SHA256}}") cfg.wrapper_release.sums_sha256 t in
      let t = replace (lit "{{GATEWAY_BASE}}") cfg.public_url t in
      let t = replace (lit "{{RPC_URL}}") cfg.rpc_url t in
      let t = replace (lit "{{PAYMENT_POOL}}") (show_address cfg.payment_pool) t in
      let t = replace (lit "{{CAPACITY_BOND}}") (show_address cfg.capacity_bond) t in
      replace (lit "{{CHAIN_ID}}") (show_u64 cfg.chain_id) t

  module _ {Chain : Type 0} (state : AppState crates Chain) where
    -- sh. `template` is DECDN_SH_TEMPLATE, the text of assets/decdn.sh.
    unfoldable pub sh : Text → Response
    sh template = record {
      status = ok_200;
      body = script "text/x-shellscript; charset=utf-8" (render template state.cfg);
    }

    -- ps1. `template` is DECDN_PS1_TEMPLATE, the text of assets/decdn.ps1.
    unfoldable pub ps1 : Text → Response
    ps1 template = record {
      status = ok_200;
      body = script "text/plain; charset=utf-8" (render template state.cfg);
    }
