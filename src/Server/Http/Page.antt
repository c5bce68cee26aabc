-- ===== src/Server/Http/Page.antt =====
-- crates/server/src/http/fund.rs: `page`, the captcha page for one client.
pub mod Guard
use sponsor.Common.{
  ℕ, Bool, true, false, List, [], ◌∷◌, ◌++◌, Option, none, some, all, length, ◌==◌, ◌&&◌,
  if◌then◌else◌,
}
use sponsor.Common.Text.{Text, lit, bytes}
use sponsor.Common.Text.Split.{strip_prefix}
use sponsor.Common.Text.Replace.{replace}
use sponsor.Crates.{Crates, is_ascii_hexdigit}
use sponsor.Server.State.{AppState}
use sponsor.Server.Http.{Response, ok_200, bad_request, err_json, html}

-- `s.strip_prefix(p).unwrap_or(s)`
unfoldable pub without_prefix : Text → Text → Text
without_prefix p s = elim (strip_prefix p s) [ none ↦ s | some t ↦ t ]

-- is_hex_of_len
unfoldable pub is_hex_of_len : Text → ℕ → Bool
unfolding without_prefix
is_hex_of_len s expected_len =
    let digits = without_prefix (lit "0x") s in
    length (bytes digits) == expected_len && all is_ascii_hexdigit (bytes digits)

module _ (crates : Crates) {Chain : Type 0} (template : Text) (state : AppState crates Chain) where
  -- page. `template` is FUND_PAGE_TEMPLATE, the text of assets/fund.html.
  unfoldable pub page : Text → Response
  page client =
      if is_hex_of_len client 40
      then record {
        status = ok_200;
        body = html (
            replace (lit "{{CLIENT}}") client
              (replace (lit "{{SITEKEY}}") state.cfg.turnstile_sitekey template));
      }
      else err_json bad_request "bad_request"
