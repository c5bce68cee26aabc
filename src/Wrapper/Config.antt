-- ===== src/Wrapper/Config.antt =====
-- crates/wrapper/src/config.rs: the profile that the installer wrote, on a Unix system.
pub mod Home
use sponsor.Common.{
  ℕ, Bool, true, false, ◌||◌, Option, none, some, ◌∷◌, [], ◌++◌, if◌then◌else◌, List, String,
}
use sponsor.Common.Result.{Result, ok, err, ok_or, ◌>>=◌}
use sponsor.Common.Text.{Text, lit, text_eq}
use sponsor.Common.Text.Split.{strip_prefix}
use sponsor.Crates.{Crates}
unfoldable pub use sponsor.Common.Text.Path.{join, ends_in_slash}
use sponsor.Common.Text.Path.{starts_with}

-- `strip_prefix(…).unwrap_or(s)`
abbrev pub stripped : Text → Text → Text
stripped p s = elim (strip_prefix p s) [ some rest ↦ rest | none ↦ s ]

-- `std::env::home_dir()`, for a home directory that is UTF-8.
abbrev pub home : Option Text → Result Text
home home_dir = ok_or home_dir "cannot determine the home directory"

abbrev below_home : Option Text → Text → Result Text
below_home home_dir s = do
  base ← home home_dir
  ok (join base (stripped (lit "/") (stripped (lit "~") s)))

-- expand_home, for a path that is UTF-8.
unfoldable pub expand_home : Option Text → Text → Result Text
unfolding starts_with text_eq join
expand_home home_dir s =
    if text_eq s (lit "~") || starts_with s (lit "~/") then below_home home_dir s else ok s

module _ (crates : Crates) where
  open crates use {Address}

  -- Profile
  pub record Profile : Type 0 where
    pub gateway_base : Text
    pub decdn_bin : Text
    pub data_dir : Text
    pub rpc_url : Text
    pub payment_pool : Address
    pub capacity_bond : Option Address
    pub slash_judge : Option Address
    pub chain_id : ℕ

  -- WrapperConfig
  pub record WrapperConfig : Type 0 where
    pub gateway_base : Text
    pub decdn_bin : Text
    pub data_dir : Text
    pub rpc_url : Text
    pub payment_pool : Address
    pub capacity_bond : Option Address
    pub slash_judge : Option Address
    pub chain_id : ℕ

  -- `from_toml` is `toml::from_str` at Profile, `home_dir` the home directory.
  module _ (from_toml : Text → Result Profile) (home_dir : Option Text) where
    -- WrapperConfig::from_toml_str
    unfoldable pub from_toml_str : Text → Result WrapperConfig
    unfolding expand_home
    from_toml_str text = do
      profile ← from_toml text
      data_dir ← expand_home home_dir profile.data_dir
      ok (record {
        gateway_base = profile.gateway_base;
        decdn_bin = profile.decdn_bin;
        data_dir = data_dir;
        rpc_url = profile.rpc_url;
        payment_pool = profile.payment_pool;
        capacity_bond = profile.capacity_bond;
        slash_judge = profile.slash_judge;
        chain_id = profile.chain_id;
      })

    -- `std::env::var("DECDN_SPONSOR_PROFILE")`, or the profile below the home directory.
    abbrev profile_path : Option Text → Result Text
    profile_path (some p) = ok p
    profile_path none = do base ← home home_dir; ok (join base (lit ".decdn/sponsor.toml"))

    -- WrapperConfig::load, over the file system `read_to_string`.
    unfoldable pub load : (Text → Result Text) → Option Text → Result WrapperConfig
    load read_to_string var = do
      path ← profile_path var
      text ← read_to_string path
      from_toml_str text
