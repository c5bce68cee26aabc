-- ===== src/Server/Release.antt =====
-- crates/server/src/config.rs: `ReleasePin`, a release by its tag and the digest of its SHA256SUMS.
pub mod Tag
pub mod Safety
use sponsor.Common.{
  ℕ, ◌≡◌, Bool, true, false, not, List, [], ◌∷◌, Option, none, some, all, length, leb, ltb, ◌==◌,
  ◌&&◌, ◌||◌, if◌then◌else◌, refl,
}
use sponsor.Common.Result.{Result, ok, ◌>>=◌, ◌>>◌, ensure}
use sponsor.Common.Text.{Text, lit, bytes}
use sponsor.Common.Text.Split.{strip_prefix, split_once, split}

-- `u8::is_ascii_digit`
abbrev pub is_ascii_digit : ℕ → Bool
is_ascii_digit b = leb b'0' b && leb b b'9'

-- `u8::is_ascii_alphanumeric`
abbrev pub is_ascii_alphanumeric : ℕ → Bool
is_ascii_alphanumeric b =
    is_ascii_digit b || (leb b'a' b && leb b b'z') || (leb b'A' b && leb b b'Z')

abbrev pub is_empty : Text → Bool
is_empty [] = true
is_empty (c ∷ s) = false

abbrev pub is_part : Text → Bool
is_part p = not (is_empty p) && all is_ascii_digit (bytes p)

abbrev pub is_pre : Text → Bool
is_pre p =
    not (is_empty p) && all (λ b. is_ascii_alphanumeric b || b == b'.' || b == b'-') (bytes p)

-- `pre.is_none_or(…)`
abbrev pub none_or_pre : Option Text → Bool
none_or_pre none = true
none_or_pre (some p) = is_pre p

abbrev pub core_and_pre : Text → Option (Text × Text) → Text × Option Text
core_and_pre version none = (version, none)
core_and_pre version (some (core, pre)) = (core, some pre)

abbrev pub is_version : Text → Bool
is_version version =
    let (core, pre) = core_and_pre version (split_once b'-' version) in
    length (split b'.' core) == 3 && all is_part (split b'.' core) && none_or_pre pre

abbrev pub some_version : Option Text → Bool
some_version none = false
some_version (some version) = is_version version

-- is_release_tag
unfoldable pub is_release_tag : Text → Bool
is_release_tag tag = some_version (strip_prefix (lit "v") tag)

abbrev pub is_lower_hex : ℕ → Bool
is_lower_hex b = is_ascii_digit b || (leb b'a' b && leb b b'f')

pub record ReleasePin : Type 0 where
  pub tag : Text
  pub sums_sha256 : Text

-- ReleasePin::new
unfoldable pub new_pin : Text → Text → Result ReleasePin
new_pin tag sums_sha256 = do
  ensure (is_release_tag tag) "release tag is not vMAJOR.MINOR.PATCH[-pre]"
  ensure (length (bytes sums_sha256) == 64 && all is_lower_hex (bytes sums_sha256))
      "SHA256SUMS digest is not 64 lowercase hex characters"
  ok (record { tag = tag; sums_sha256 = sums_sha256 })
