-- ===== src/Server/Tests/Contract.antt =====
-- The tests of crates/server/tests/http_contract.rs, run on the model, but for the two on the
-- installer scripts, which are about the templates.
use sponsor.Common.{
  ℕ, ◌≡◌, refl, Bool, true, false, not, ◌&&◌, [], ◌∷◌, Option, none, some, all, ◌==◌, String,
}
use sponsor.Common.Text.{Text, lit, text_eq, bytes}
use sponsor.Crates.{is_ascii_hexdigit}
use sponsor.Samples.{sample_crates}
use sponsor.Samples.Memory.{memory, MemoryDb}
use sponsor.Samples.Asserts.{contains, ok_and, some_and, is_ok}
use sponsor.Server.Store.{GrantRecord}
use sponsor.Server.Store.Table.{open_store, create_table, put_grant}
use sponsor.Server.Http.{
  Response, StatusCode, ok_200, no_content, bad_request, forbidden, internal_server_error, Body,
  json, html, str, since_epoch, parsed, healthz,
}
use sponsor.Server.Http.Capability.{get}
use sponsor.Server.Http.Fund.{FundRequest}
use sponsor.Server.Http.Page.{page, is_hex_of_len, without_prefix}
use sponsor.Server.Http.Router.{Assets, Method, get_method, post_method, route_of, serve}
use sponsor.Server.Tests.Router.{sample_axum}
use sponsor.Server.Tests.Http.{run, codec}
use sponsor.Server.Tests.Support.{
  FakeOptions, default_options, app_state_with_options, fake_captcha, fake_state,
}
use sponsor.Wrapper.Keystore.{starts_with}
use sponsor.Common.Text.Split.{strip_prefix}
use sponsor.Common.Text.Replace.{replace}

abbrev code : StatusCode → ℕ
code ok_200 = 200
code no_content = 204
code bad_request = 400
code forbidden = 403
code internal_server_error = 500

-- `v[name].as_str()`
abbrev as_str : String → Body → Option Text
as_str name (json field (str t)) = some t
as_str name _ = none

abbrev in_html : (Text → Bool) → Body → Bool
in_html p (html t) = p t
in_html p _ = false

abbrev client : Text
client = sample_crates.show_address true

abbrev fund_body : FundRequest
fund_body = record { client = client; turnstile_token = lit "ok" }

-- The placeholders of assets/fund.html.
abbrev templates : Assets
templates = record {
  fund_html = lit "data-sitekey={{SITEKEY}} client={{CLIENT}}";
  decdn_sh = [];
  decdn_ps1 = [];
}

-- `app.oneshot(…)`, at a time when the grants of the earlier requests stand.
abbrev oneshot : FakeOptions → Method → Text → Text → MemoryDb → Response × MemoryDb
oneshot opts method path query =
    serve sample_crates memory sample_axum templates (fake_state opts) (record {
      request = record { method = method; path = path; query = query; body = parsed fund_body };
      time = since_epoch 1_769_904_000 0;
      verifier = fake_captcha opts.captcha_passes;
    })

-- A test that starts from `app_state_with_options`.
abbrev with_app : FakeOptions → (MemoryDb → Bool) → Bool
with_app opts test = ok_and (λ app. test app.1) (app_state_with_options opts tt).0

unfoldable healthz_ok : Bool
unfolding app_state_with_options open_store create_table serve route_of text_eq healthz
healthz_ok =
    with_app default_options
      (λ db. code (oneshot default_options get_method (lit "/healthz") [] db).0.status == 200)

abbrev same_token : Body → Body → Bool
same_token a b = some_and (λ t. some_and (text_eq t) (as_str "token" b)) (as_str "token" a)

abbrev issues_then_returns : MemoryDb → Bool
issues_then_returns db =
    let (funded, db) = oneshot default_options post_method (lit "/fund") [] db in
    let (polled, db) = oneshot default_options get_method (lit "/capability") client db in
    let (again, db) = oneshot default_options post_method (lit "/fund") [] db in
    code funded.status == 200
    && some_and (λ t. starts_with t (lit "dcap1:")) (as_str "token" funded.body)
    && code polled.status == 200
    && same_token funded.body polled.body
    && code again.status == 200
    && same_token funded.body again.body

unfoldable fund_issues_token_then_capability_returns_same_token : Bool
unfolding run codec app_state_with_options open_store create_table serve route_of text_eq get
    starts_with strip_prefix
fund_issues_token_then_capability_returns_same_token = with_app default_options issues_then_returns

unfoldable capability_204_before_issue : Bool
unfolding run codec app_state_with_options open_store create_table serve route_of text_eq get
capability_204_before_issue =
    with_app default_options (λ db.
      code (oneshot default_options get_method (lit "/capability") client db).0.status == 204)

abbrev no_captcha : FakeOptions
no_captcha = record default_options { captcha_passes = false }

unfoldable fund_rejects_bad_captcha_403 : Bool
unfolding run codec app_state_with_options open_store create_table serve route_of text_eq
fund_rejects_bad_captcha_403 = with_app no_captcha (λ db.
    let (resp, db') = oneshot no_captcha post_method (lit "/fund") [] db in
    code resp.status == 403 && some_and (text_eq (lit "captcha_failed")) (as_str "error" resp.body))

abbrev embeds : MemoryDb → Bool
embeds db =
    let (shown, db) = oneshot default_options get_method (lit "/fund") client db in
    let (turned_away, db) = oneshot default_options get_method (lit "/fund") (lit "<script>") db in
    code shown.status == 200
    && in_html (λ t. contains t (lit "TEST_SITEKEY") && contains t client) shown.body
    && code turned_away.status == 400

unfoldable fund_page_embeds_sitekey_and_client_and_rejects_non_hex : Bool
unfolding run codec app_state_with_options open_store create_table serve route_of text_eq page
    is_hex_of_len without_prefix is_ascii_hexdigit bytes replace contains starts_with strip_prefix
fund_page_embeds_sitekey_and_client_and_rejects_non_hex = with_app default_options embeds

abbrev stale : GrantRecord
stale = record {
  spending_cap = 10_000_000;
  expiry = 1_000_000;
  issued_unix = 0;
  token = lit "dcap1:STALE";
}

abbrev reissues : MemoryDb → Bool
reissues db =
    let (seeded, db) = put_grant sample_crates memory true stale db in
    let (polled, db) = oneshot default_options get_method (lit "/capability") client db in
    let (funded, db) = oneshot default_options post_method (lit "/fund") [] db in
    is_ok seeded
    && code polled.status == 204
    && code funded.status == 200
    && some_and (λ t. not (text_eq t (lit "dcap1:STALE")) && starts_with t (lit "dcap1:"))
        (as_str "token" funded.body)

unfoldable expired_grant_is_treated_as_absent_and_reissued : Bool
unfolding run codec app_state_with_options open_store create_table serve route_of text_eq get
    starts_with strip_prefix
expired_grant_is_treated_as_absent_and_reissued = with_app default_options reissues

-- All of them pass.
all_pass :
    all
      (λ b. b)
      (healthz_ok ∷ fund_issues_token_then_capability_returns_same_token
        ∷ capability_204_before_issue ∷ fund_rejects_bad_captcha_403
        ∷ fund_page_embeds_sitekey_and_client_and_rejects_non_hex
        ∷ expired_grant_is_treated_as_absent_and_reissued ∷ [])
    ≡ true
unfolding healthz_ok fund_issues_token_then_capability_returns_same_token
    capability_204_before_issue fund_rejects_bad_captcha_403
    fund_page_embeds_sitekey_and_client_and_rejects_non_hex
    expired_grant_is_treated_as_absent_and_reissued
all_pass = refl
