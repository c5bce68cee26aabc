-- ===== src/Crates.antt =====
-- What sponsord takes from crates outside the repository: addresses and 32-byte words (alloy), and
-- capabilities (decdn_incentive). The laws are what those crates document.
use sponsor.Common.{ℕ, ◌≡◌, ◌∷◌, all, length, ◌&&◌, ◌||◌, leb, Bool, true}
use sponsor.Common.Result.{Result, ok}
use sponsor.Common.Text.Trim.{trim}
use sponsor.Common.Text.{Text, IsText}

-- decdn_incentive::Capability
pub record Capability (Address B256 : Type 0) : Type 0 where
  pub signer : Address
  pub spending_cap : ℕ
  pub pool_id : B256
  pub expiry : ℕ

-- `u8::is_ascii_hexdigit`
unfoldable pub is_ascii_hexdigit : ℕ → Bool
is_ascii_hexdigit b =
    (leb b'0' b && leb b b'9') || (leb b'a' b && leb b b'f') || (leb b'A' b && leb b b'F')

pub record Crates : Type 1 where
  pub Address : Type 0
  pub address_discrete : Discrete Address
  -- `Address::from_str` and `Display for Address`, which prints 0x and 40 hex digits
  pub parse_address : Text → Result Address
  pub show_address : Address → Text
  pub parse-show : (a : Address) → parse_address (show_address a) ≡ ok a
  pub hex_of : Address → Text
  pub show_hex : (a : Address) → show_address a ≡ b'0' ∷ b'x' ∷ hex_of a
  pub hex_digits : (a : Address) → all is_ascii_hexdigit (hex_of a) ≡ true
  pub hex_length : (a : Address) → length (hex_of a) ≡ 40
  -- `B256::from_str`
  pub B256 : Type 0
  pub parse_b256 : Text → Result B256
  -- An address to listen on. The program reads it and hands it to the listener.
  pub SocketAddr : Type 0
  pub parse_socket_addr : Text → Result SocketAddr
  -- alloy's `PrivateKeySigner` and `signer.address()`
  pub PrivateKey : Type 0
  pub key_address : PrivateKey → Address
  -- decdn_incentive: the EIP-712 domain, signing, and the `dcap1:` token
  pub Domain : Type 0
  pub voucher_domain : ℕ → Address → Domain
  pub Signed : Type 0
  pub sign : Capability Address B256 → PrivateKey → Domain → Result Signed
  pub to_token : Signed → Text
  pub Grant : Type 0
  pub from_token : Text → Result Grant
  pub grants : Grant → Capability Address B256
  pub owner : Grant → Domain → Result Address
  pub token-IsText : (s : Signed) → IsText (to_token s)
  -- A token neither begins nor ends in white space.
  pub trim-to_token : (s : Signed) → trim (to_token s) ≡ to_token s
  -- A signed capability reads back from its token, and names its signer.
  pub read : Signed → Grant
  pub from-to_token : (s : Signed) → from_token (to_token s) ≡ ok (read s)
  pub grants-sign :
      (c : Capability Address B256) (k : PrivateKey) (d : Domain) (s : Signed)
      → sign c k d ≡ ok s
      → (grants (read s) ≡ c) × (owner (read s) d ≡ ok (key_address k))
