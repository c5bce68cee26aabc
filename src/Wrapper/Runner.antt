-- ===== src/Wrapper/Runner.antt =====
-- crates/wrapper/src/runner.rs: the arguments of the `decdn bundle pull` that does the download.
pub mod Flags
use sponsor.Common.{ℕ, Option, none, some, List, [], ◌∷◌, ◌++◌, String}
use sponsor.Common.Text.{Text, lit}
use sponsor.Common.Text.Number.{show_u64}

-- PullArgs
pub record PullArgs : Type 0 where
  pub hash : Text
  pub output : Text
  pub capability_file : Text
  pub keystore : Text
  pub password_file : Text
  pub data_dir : Text
  pub rpc_url : Text
  pub payment_pool_address : Text
  pub capacity_bond_address : Option Text
  pub slash_judge_address : Option Text
  pub chain_id : ℕ

-- `if let Some(addr) = … { args.push(flag); args.push(addr) }`
abbrev pub push_option : String → Option Text → List Text
push_option flag none = []
push_option flag (some addr) = lit flag ∷ addr ∷ []

-- PullArgs::to_args
unfoldable pub to_args : PullArgs → List Text
to_args a =
    (lit "bundle"
      ∷ lit "pull"
      ∷ lit "--hash"
      ∷ a.hash
      ∷ lit "-o"
      ∷ a.output
      ∷ lit "--capability-file"
      ∷ a.capability_file
      ∷ lit "--keystore"
      ∷ a.keystore
      ∷ lit "--keystore-password-file"
      ∷ a.password_file
      ∷ lit "--data-dir"
      ∷ a.data_dir
      ∷ lit "--rpc-url"
      ∷ a.rpc_url
      ∷ lit "--payment-pool-address"
      ∷ a.payment_pool_address
      ∷ lit "--chain-id"
      ∷ show_u64 a.chain_id
      ∷ [])
    ++ (push_option "--capacity-bond-address" a.capacity_bond_address
        ++ push_option "--slash-judge-address" a.slash_judge_address)
