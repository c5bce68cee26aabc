-- ===== src/Wrapper/Session.antt =====
-- crates/wrapper/src/session.rs: the hash that names a download's directory.
pub mod Hash
pub mod Identity
pub mod State
pub mod Stale
pub mod Held
pub mod Fresh
pub mod Reads
pub mod Pairing
pub mod Writes
use sponsor.Common.{
  ℕ, ◌+◌, Bool, ◌&&◌, ◌==◌, Option, none, some, List, [], ◌∷◌, map, all, length, leb, if◌then◌else◌,
}
use sponsor.Common.Result.{Result, ok, err, ensure, ◌>>◌}
use sponsor.Common.Text.{Text, lit, bytes}
use sponsor.Common.Text.Trim.{trim}
use sponsor.Common.Text.Split.{strip_prefix}
use sponsor.Crates.{is_ascii_hexdigit}

abbrev pub to_lower : ℕ → ℕ
to_lower c = if leb b'A' c && leb c b'Z' then c + 32 else c

-- `str::to_ascii_lowercase`
unfoldable pub to_ascii_lowercase : Text → Text
to_ascii_lowercase [] = []
to_ascii_lowercase (c ∷ s) = to_lower c ∷ to_ascii_lowercase s

-- `.or_else(|| trimmed.strip_prefix("0x")).unwrap_or(trimmed)`
abbrev pub or_0x : Text → Option Text → Text
or_0x trimmed (some rest) = rest
or_0x trimmed none = elim (strip_prefix (lit "0x") trimmed) [ some rest ↦ rest | none ↦ trimmed ]

unfoldable pub without_tag : Text → Text
without_tag trimmed = or_0x trimmed (strip_prefix (lit "b3:") trimmed)

-- normalize_hash
unfoldable pub normalize_hash : Text → Result Text
unfolding to_ascii_lowercase without_tag
normalize_hash raw =
    let hex = to_ascii_lowercase (without_tag (trim raw)) in
    ensure (length (bytes hex) == 64 && all is_ascii_hexdigit (bytes hex))
      "not a BLAKE3 hash (expected 64 hex characters, optionally b3:-prefixed)"
    >> ok hex
