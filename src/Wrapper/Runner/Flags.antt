-- ===== src/Wrapper/Runner/Flags.antt =====
-- What a reader of `--flag value` pairs finds in the arguments.
use sponsor.Common.{◌≡◌, ◌++◌, String, refl, Option, none, some, List, [], ◌∷◌, drop, if◌then◌else◌}
use sponsor.Common.Text.{Text, lit, text_eq}
use sponsor.Common.Text.Number.{show_u64}
use sponsor.Wrapper.Runner.{PullArgs, to_args, push_option}

-- The first value of `flag` in a list of flags, each followed by its value.
unfoldable pub value_of : Text → List Text → Option Text
value_of flag [] = none
value_of flag (f ∷ []) = none
value_of flag (f ∷ v ∷ rest) =
    let later = value_of flag rest in if text_eq f flag then some v else later

abbrev pub flag_value : String → PullArgs → Option Text
flag_value flag a = value_of (lit flag) (drop 2 (to_args a))

pub record IsRead (a : PullArgs) : Type 0 where
  pub hash : flag_value "--hash" a ≡ some a.hash
  pub output : flag_value "-o" a ≡ some a.output
  pub capability_file : flag_value "--capability-file" a ≡ some a.capability_file
  pub keystore : flag_value "--keystore" a ≡ some a.keystore
  pub password_file : flag_value "--keystore-password-file" a ≡ some a.password_file
  pub data_dir : flag_value "--data-dir" a ≡ some a.data_dir
  pub rpc_url : flag_value "--rpc-url" a ≡ some a.rpc_url
  pub payment_pool : flag_value "--payment-pool-address" a ≡ some a.payment_pool_address
  pub capacity_bond : flag_value "--capacity-bond-address" a ≡ a.capacity_bond_address
  pub slash_judge : flag_value "--slash-judge-address" a ≡ a.slash_judge_address
  pub chain_id : flag_value "--chain-id" a ≡ some (show_u64 a.chain_id)
  pub no_token : flag_value "--capability" a ≡ none

pushed_bond :
    (o o' : Option Text)
    → value_of
        (lit "--capacity-bond-address")
        (push_option "--capacity-bond-address" o ++ push_option "--slash-judge-address" o')
      ≡ o
unfolding value_of text_eq
pushed_bond none none = refl
pushed_bond none (some b) = refl
pushed_bond (some a) o' = refl

pushed_judge :
    (o o' : Option Text)
    → value_of
        (lit "--slash-judge-address")
        (push_option "--capacity-bond-address" o ++ push_option "--slash-judge-address" o')
      ≡ o'
unfolding value_of text_eq
pushed_judge none none = refl
pushed_judge none (some b) = refl
pushed_judge (some a) none = refl
pushed_judge (some a) (some b) = refl

pushed_token :
    (o o' : Option Text)
    → value_of
        (lit "--capability")
        (push_option "--capacity-bond-address" o ++ push_option "--slash-judge-address" o')
      ≡ none
unfolding value_of text_eq
pushed_token none none = refl
pushed_token none (some b) = refl
pushed_token (some a) none = refl
pushed_token (some a) (some b) = refl

-- Reading the arguments for `decdn bundle pull` as flags with values finds every field under its
-- own flag, an optional one exactly when it is given, and no flag that would carry the token
-- itself.
pub to_args-IsRead : (a : PullArgs) → IsRead a
unfolding to_args value_of text_eq
to_args-IsRead a = record {
  hash = refl;
  output = refl;
  capability_file = refl;
  keystore = refl;
  password_file = refl;
  data_dir = refl;
  rpc_url = refl;
  payment_pool = refl;
  capacity_bond = pushed_bond a.capacity_bond_address a.slash_judge_address;
  slash_judge = pushed_judge a.capacity_bond_address a.slash_judge_address;
  chain_id = refl;
  no_token = pushed_token a.capacity_bond_address a.slash_judge_address;
}
