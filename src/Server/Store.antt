-- ===== src/Server/Store.antt =====
-- crates/server/src/store.rs: the record of an issued capability, and its bytes.
pub mod Codec
pub mod Redb
pub mod Table
pub mod Grants
pub mod Refines
use sponsor.Common.{
  ℕ, ◌-◌, List, ◌++◌, Option, none, some, take, drop, length, leb, ◌&&◌, ◌==◌, if◌then◌else◌,
}
use sponsor.Common.Result.{Result, ok, ◌>>=◌, ◌>>◌, ensure, ok_or}
use sponsor.Common.Words.{IsU64, to_be_bytes, from_be_bytes}
use sponsor.Common.Text.{Text, IsText, bytes, from_utf8}

-- A capability issued to a signer.
pub record GrantRecord : Type 0 where
  pub spending_cap : ℕ
  pub expiry : ℕ
  pub issued_unix : ℕ
  pub token : Text

-- What the Rust types of the fields guarantee.
pub record IsRecord (r : GrantRecord) : Type 0 where
  pub cap_IsU64 : IsU64 r.spending_cap
  pub expiry_IsU64 : IsU64 r.expiry
  pub issued_IsU64 : IsU64 r.issued_unix
  pub token_IsText : IsText r.token

-- GrantRecord::encode
unfoldable pub encode : GrantRecord → List ℕ
encode r =
    to_be_bytes r.spending_cap
    ++ (to_be_bytes r.expiry ++ (to_be_bytes r.issued_unix ++ bytes r.token))

-- `b.get(lo..hi)`
unfoldable pub get_range : ℕ → ℕ → List ℕ → Option (List ℕ)
get_range lo hi b =
    if leb lo hi && leb hi (length b) then some (take (hi - lo) (drop lo b)) else none

-- `b.get(lo..)`
unfoldable pub get_from : ℕ → List ℕ → Option (List ℕ)
get_from lo b = if leb lo (length b) then some (drop lo b) else none

-- `u64::from_be_bytes(b.try_into()?)`
unfoldable pub read_u64 : List ℕ → Option ℕ
read_u64 b = if length b == 8 then some (from_be_bytes b) else none

-- GrantRecord::decode
unfoldable pub decode : List ℕ → Result GrantRecord
decode b = do
  ensure (leb 24 (length b)) "bad grant record length"
  cap_bytes ← ok_or (get_range 0 8 b) "cap"
  spending_cap ← ok_or (read_u64 cap_bytes) "cap len"
  exp_bytes ← ok_or (get_range 8 16 b) "expiry"
  expiry ← ok_or (read_u64 exp_bytes) "expiry len"
  iss_bytes ← ok_or (get_range 16 24 b) "issued"
  issued_unix ← ok_or (read_u64 iss_bytes) "issued len"
  token_bytes ← ok_or (get_from 24 b) "token"
  token ← ok_or (from_utf8 token_bytes) "grant token not utf8"
  ok (record {
    spending_cap = spending_cap;
    expiry = expiry;
    issued_unix = issued_unix;
    token = token;
  })
