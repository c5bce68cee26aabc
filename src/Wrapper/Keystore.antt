-- ===== src/Wrapper/Keystore.antt =====
-- crates/wrapper/src/keystore.rs: the address that a keystore file states.
pub mod Address
use sponsor.Common.{Bool, true, false, Option, none, some, ◌++◌, if◌then◌else◌}
use sponsor.Common.Result.{Result, ok, err, ok_or, ◌>>=◌}
use sponsor.Common.Text.{Text, lit}
use sponsor.Common.Text.Split.{strip_prefix}
use sponsor.Crates.{Crates}
unfoldable pub use sponsor.Common.Text.Path.{starts_with}

unfoldable pub with_prefix : Text → Text
unfolding starts_with
with_prefix raw = if starts_with raw (lit "0x") then raw else lit "0x" ++ raw

-- `read` is the file system, `from_slice` serde_json, and `address_field` its
-- `.get("address").and_then(|v| v.as_str())`.
module _ (crates : Crates) {Bytes Json : Type 0} (read : Text → Result Bytes)
    (from_slice : Bytes → Result Json) (address_field : Json → Option Text) where
  open crates use {Address, parse_address}

  -- read_address
  unfoldable pub read_address : Text → Result Address
  unfolding with_prefix
  read_address keystore_path = do
    raw_bytes ← read keystore_path
    json ← from_slice raw_bytes
    raw ← ok_or (address_field json) "keystore missing address field"
    parse_address (with_prefix raw)
