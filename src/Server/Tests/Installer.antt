-- ===== src/Server/Tests/Installer.antt =====
-- The installer scripts of a small template.
use sponsor.Common.{ℕ, ◌≡◌, refl, true, List, [], ◌∷◌, All, arith}
use sponsor.Common.Text.{Text, lit, text_eq}
use sponsor.Common.Text.Number.{show_u64}
use sponsor.Common.Text.Fill.{Quiet, IsName}
use sponsor.Common.Text.Fill.Template.{Piece, text, hole, IsPiece, source_of, write, filled}
use sponsor.Samples.{sample_crates}
use sponsor.Server.State.{AppState}
use sponsor.Server.Http.{ok_200, script}
use sponsor.Server.Http.Installer.{sh, ps1}
use sponsor.Server.Http.Installer.Filled.{values, scripts_filled, Quiet-of_Without, IsName-of_all}
use sponsor.Server.Tests.Http.{fake_state}
use sponsor.Server.Tests.Support.{fake_treasury}
use sponsor.Server.Tests.Boot.{variables, read_cfg, config_read}

abbrev state : AppState sample_crates ℕ
state = record {
  treasury = fake_treasury true;
  issuer = (fake_state true).issuer;
  turnstile = (fake_state true).turnstile;
  cfg = read_cfg;
}

abbrev pieces : List Piece
pieces =
    text (lit "GATEWAY='")
    ∷ hole (lit "GATEWAY_BASE")
    ∷ text (lit "'; run() { ")
    ∷ hole (lit "CHAIN_ID")
    ∷ hole (lit "OTHER")
    ∷ []

-- A placeholder that has no value stays.
script_text :
    write (filled (values sample_crates read_cfg)) pieces
    ≡ lit "GATEWAY='https://up.decdn.org'; run() { 421614{{OTHER}}"
unfolding text_eq show_u64
script_text = refl

bare : (s : Text) → IsName s → Quiet s
bare s n = Quiet-of_Without s n.0

pieces-IsPiece : All IsPiece pieces
pieces-IsPiece = (
  bare (lit "GATEWAY='") (IsName-of_all (lit "GATEWAY='") refl),
  (
    IsName-of_all (lit "GATEWAY_BASE") refl,
    (ground arith, (IsName-of_all (lit "CHAIN_ID") refl, (IsName-of_all (lit "OTHER") refl, tt))),
  ),
)

scripts_filled_example :
    (sh sample_crates state (write source_of pieces) ≡ record {
      status = ok_200;
      body =
          script "text/x-shellscript; charset=utf-8"
            (write (filled (values sample_crates read_cfg)) pieces);
    })
    × (ps1 sample_crates state (write source_of pieces) ≡ record {
      status = ok_200;
      body =
          script "text/plain; charset=utf-8"
            (write (filled (values sample_crates read_cfg)) pieces);
    })
scripts_filled_example =
    scripts_filled sample_crates state variables pieces config_read
      (bare read_cfg.public_url (IsName-of_all read_cfg.public_url refl))
      (bare read_cfg.rpc_url (IsName-of_all read_cfg.rpc_url refl)) pieces-IsPiece
