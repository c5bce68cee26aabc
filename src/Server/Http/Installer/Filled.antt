-- ===== src/Server/Http/Installer/Filled.antt =====
-- The installer scripts: their templates with every placeholder filled.
use sponsor.Common.{
  ℕ, ◌≡◌, ◌≢◌, refl, Bool, String, true, not, List, [], ◌∷◌, All, All-append, All-of_all, all, ◌==◌,
  ◌&&◌, arith, ltb, Bool-cases, inl, inr, zero, suc, ◌/◌,
}
use sponsor.Common.Result.{ok}
use sponsor.Common.Text.{Text, lit}
use sponsor.Common.Text.Split.{Without}
use sponsor.Common.Text.Number.{show_u64, show_from}
use sponsor.Common.Text.Fill.{Quiet, IsName}
use sponsor.Common.Text.Fill.Template.{Piece, IsPiece, source_of, write, filled, replace_all-write}
use sponsor.Crates.{Crates, is_ascii_hexdigit}
use sponsor.Server.Config.{ServerConfig, Env, from_env}
use sponsor.Server.Config.Reads.{from_env-Reads, ReadsPin}
use sponsor.Server.Release.{ReleasePin}
use sponsor.Server.Release.Safety.{IsPlain, new_pin-All-IsPlain}
use sponsor.Server.State.{AppState}
use sponsor.Server.Http.{ok_200, script}
use sponsor.Server.Http.Installer.{render, sh, ps1}

pub Quiet-of_Without : (s : List ℕ) → Without b'{' s → Quiet s
Quiet-of_Without [] h = tt
Quiet-of_Without (c ∷ []) h = h.0
Quiet-of_Without (c ∷ d ∷ s) h = (inl h.0, Quiet-of_Without (d ∷ s) h.1)

no_brace : (c : ℕ) → IsPlain c → c ≢ b'{'
no_brace c h = ground arith

plain-Quiet : (s : Text) → All IsPlain s → Quiet s
plain-Quiet [] h = tt
plain-Quiet (c ∷ []) h = no_brace c h.0
plain-Quiet (c ∷ d ∷ s) h = (inl (no_brace c h.0), plain-Quiet (d ∷ s) h.1)

show_from-Without : (k n : ℕ) → Without b'{' (show_from k n)
unfolding show_from
show_from-Without zero n = tt
show_from-Without (suc k) n = elim (Bool-cases (ltb n 10)) [
  | inl small ↦ rw (small, show_from) (ground arith, tt)
  | inr large ↦
      rw (large, show_from)
        (All-append (λ c. c ≢ b'{') (show_from k (n / 10)) _ (show_from-Without k (n / 10))
          (ground arith, tt))
]

show_u64-Quiet : (n : ℕ) → Quiet (show_u64 n)
unfolding show_u64
show_u64-Quiet n = Quiet-of_Without (show_from 20 n) (show_from-Without 20 n)

abbrev pub in_name : ℕ → Bool
in_name c = not (c == b'{') && not (c == b'}')

pub IsName-of_all : (n : List ℕ) → all in_name n ≡ true → IsName n
IsName-of_all n h = (
  All-of_all (λ c. c ≢ b'{') in_name n (λ c hc. ground arith) h,
  All-of_all (λ c. c ≢ b'}') in_name n (λ c hc. ground arith) h,
)

module _ (crates : Crates) where
  open crates use {Address, show_address, show_hex, hex_of, hex_digits}

  show_address-Quiet : (a : Address) → Quiet (show_address a)
  unfolding is_ascii_hexdigit
  show_address-Quiet a = rw (show_hex a) (
      Quiet-of_Without (b'0' ∷ b'x' ∷ hex_of a) (
        ground arith,
        (
          ground arith,
          All-of_all (λ c. c ≢ b'{') is_ascii_hexdigit (hex_of a) (λ c hc. ground arith)
              (hex_digits a),
        ),
      ))

  -- The value of each placeholder.
  abbrev pub values : ServerConfig crates → List (Text × Text)
  values cfg =
      (lit "DECDN_RELEASE", cfg.decdn_release.tag)
      ∷ (lit "DECDN_SUMS_SHA256", cfg.decdn_release.sums_sha256)
      ∷ (lit "WRAPPER_RELEASE", cfg.wrapper_release.tag)
      ∷ (lit "WRAPPER_SUMS_SHA256", cfg.wrapper_release.sums_sha256)
      ∷ (lit "GATEWAY_BASE", cfg.public_url)
      ∷ (lit "RPC_URL", cfg.rpc_url)
      ∷ (lit "PAYMENT_POOL", show_address cfg.payment_pool)
      ∷ (lit "CAPACITY_BOND", show_address cfg.capacity_bond)
      ∷ (lit "CHAIN_ID", show_u64 cfg.chain_id)
      ∷ []

  pin-Quiet :
      (e : Env) (tag_var sums_var : String) (pin : ReleasePin)
      → ReadsPin e tag_var sums_var pin
      → Quiet pin.tag × Quiet pin.sums_sha256
  pin-Quiet e tag_var sums_var pin (tag, sums, set, set', made) =
      let (plain_tag, plain_sums) = new_pin-All-IsPlain tag sums pin made in
      (plain-Quiet pin.tag plain_tag, plain-Quiet pin.sums_sha256 plain_sums)

  module _ (e : Env) (cfg : ServerConfig crates) (read : from_env crates e ≡ ok cfg)
      (url : Quiet cfg.public_url) (rpc : Quiet cfg.rpc_url) where
    values-Quiet : All (λ (kv : Text × Text). IsName kv.0 × Quiet kv.1) (values cfg)
    values-Quiet =
        let r = from_env-Reads crates e cfg read in
        let (tag, sums) = pin-Quiet e _ _ cfg.decdn_release r.decdn_release in
        let (tag', sums') = pin-Quiet e _ _ cfg.wrapper_release r.wrapper_release in
        (
          (IsName-of_all (lit "DECDN_RELEASE") refl, tag),
          (
            (IsName-of_all (lit "DECDN_SUMS_SHA256") refl, sums),
            (
              (IsName-of_all (lit "WRAPPER_RELEASE") refl, tag'),
              (
                (IsName-of_all (lit "WRAPPER_SUMS_SHA256") refl, sums'),
                (
                  (IsName-of_all (lit "GATEWAY_BASE") refl, url),
                  (
                    (IsName-of_all (lit "RPC_URL") refl, rpc),
                    (
                      (
                        IsName-of_all (lit "PAYMENT_POOL") refl,
                        show_address-Quiet cfg.payment_pool,
                      ),
                      (
                        (
                          IsName-of_all (lit "CAPACITY_BOND") refl,
                          show_address-Quiet cfg.capacity_bond,
                        ),
                        ((IsName-of_all (lit "CHAIN_ID") refl, show_u64-Quiet cfg.chain_id), tt),
                      ),
                    ),
                  ),
                ),
              ),
            ),
          ),
        )

    render-write :
        (ps : List Piece)
        → All IsPiece ps
        → render crates (write source_of ps) cfg ≡ write (filled (values cfg)) ps
    unfolding render
    render-write ps h = replace_all-write (values cfg) ps values-Quiet h

  -- Where the configuration was read from the environment and neither its public URL nor its RPC
  -- URL has two braces `{{` or ends in one, both installer scripts, made from any template that is
  -- a sequence of texts without `{{` and of placeholders, are the template with every placeholder
  -- that the configuration has a value for replaced by its value, all at once: no replacement
  -- reads what another put in.
  pub scripts_filled :
      {Chain : Type 0} (state : AppState crates Chain) (e : Env) (ps : List Piece)
      → from_env crates e ≡ ok state.cfg
      → Quiet state.cfg.public_url
      → Quiet state.cfg.rpc_url
      → All IsPiece ps
      → (sh crates state (write source_of ps) ≡ record {
        status = ok_200;
        body = script "text/x-shellscript; charset=utf-8" (write (filled (values state.cfg)) ps);
      })
        × (ps1 crates state (write source_of ps) ≡ record {
          status = ok_200;
          body = script "text/plain; charset=utf-8" (write (filled (values state.cfg)) ps);
        })
  unfolding sh ps1
  scripts_filled state e ps read url rpc h =
      let r = render-write e state.cfg read url rpc ps h in (rw r refl, rw r refl)
