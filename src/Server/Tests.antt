-- ===== src/Server/Tests.antt =====
-- The gateway run on small inputs, and its theorems at them.
pub mod Http
pub mod Boot
pub mod Router
mod Main
mod Units
mod Watch
pub mod Support
mod Contract
mod Installer
mod Interleaved
use mathlib.Core.Logic.{ite}
use sponsor.Common.{
  ℕ, ◌+◌, ◌≡◌, ◌↔◌, ◌<◌, ◌≤◌, refl, sym, Bool, true, false, not, List, [], ◌∷◌, ◌++◌, Option, none,
  some, all, All, length, drop, min, inl, arith,
}
use sponsor.Common.Result.{Result, ok, err}
use sponsor.Common.Words.{
  saturating_add, u64_max, be_bytes, from_be_from, from_be_bytes-to_be_bytes,
}
use sponsor.Common.Text.{Text, lit, bytes, from_utf8, text_eq}
use sponsor.Common.Text.Split.{strip_prefix, split_once, split}
use sponsor.Samples.{sample_crates, same, sample_sign}
use sponsor.Samples.Memory.{memory, MemoryDb}
use sponsor.Server.Money.{MicroUsdc}
use sponsor.Server.Money
use sponsor.Common.Action.{Ends}
use sponsor.Server.Store.{GrantRecord, IsRecord, encode, decode, get_range, get_from, read_u64}
use sponsor.Server.Store.Codec.{decode-encode, decode-ok_iff}
use sponsor.Server.Store.Refines.{Op, put, get, Grants, Represents, Replays, calls, calls-Replays}
use sponsor.Server.Store.Table.{put_grant, get_grant, decode_row}
use sponsor.Server.Store.Grants.{
  put_grant_atomic, get_grant_reads, get_grant-put_grant, updated, Unchanged,
}
use sponsor.Server.Issuer.{Issuer, issue}
use sponsor.Server.Issuer.Laws.{Delegates, issue-Delegates}
use sponsor.Server.Release.{ReleasePin, is_release_tag, new_pin}
use sponsor.Server.Release.Tag.{IsTag, is_release_tag_iff}
use sponsor.Server.Release.Safety.{IsDigest, IsPlain, new_pin_iff, new_pin-All-IsPlain}

abbrev rec : GrantRecord
rec = record {
  spending_cap = 10_000_000;
  expiry = 1_769_904_000;
  issued_unix = 1_767_312_000;
  token = lit "dcap1:AAé";
}

rec_bytes :
    encode rec
    ≡ 0
      ∷ 0
      ∷ 0
      ∷ 0
      ∷ 0
      ∷ 152
      ∷ 150
      ∷ 128
      ∷ 0
      ∷ 0
      ∷ 0
      ∷ 0
      ∷ 105
      ∷ 126
      ∷ 151
      ∷ 128
      ∷ 0
      ∷ 0
      ∷ 0
      ∷ 0
      ∷ 105
      ∷ 87
      ∷ 10
      ∷ 128
      ∷ bytes (lit "dcap1:AAé")
unfolding encode be_bytes
rec_bytes = refl

rec-IsRecord : IsRecord rec
rec-IsRecord = omega arith

decode-encode_example : decode (encode rec) ≡ ok rec
decode-encode_example = decode-encode rec rec-IsRecord

decode-ok_iff_example :
    ((r : GrantRecord) × (decode (encode rec) ≡ ok r))
    ↔ ((24 ≤ length (encode rec)) × ((t : Text) × (from_utf8 (drop 24 (encode rec)) ≡ some t)))
decode-ok_iff_example = decode-ok_iff (encode rec)

abbrev fresh_db : MemoryDb
fresh_db = record { table = λ k. none; broken = false }

stored : (put_grant sample_crates memory true rec fresh_db).0 ≡ ok tt
unfolding put_grant
stored = refl

found :
    (get_grant sample_crates memory true (put_grant sample_crates memory true rec fresh_db).1).0
    ≡ ok (some rec)
unfolding put_grant get_grant encode decode be_bytes from_be_from get_range get_from read_u64
    from_utf8 bytes
found = refl

abbrev issuer : Issuer sample_crates
issuer = record {
  signer = true;
  domain = (421_614, false);
  pool_id = true;
  spending_cap = 10_000_000;
  ttl_secs = 2_592_000;
}

is_release_tag_iff_example : (is_release_tag (lit "v1.0.0-rc.1") ≡ true) ↔ IsTag (lit "v1.0.0-rc.1")
is_release_tag_iff_example = is_release_tag_iff (lit "v1.0.0-rc.1")

put_grant_atomic_example :
    Ends
      (λ _ db'. db'.table ≡ updated sample_crates memory true rec fresh_db.table)
      (Unchanged sample_crates memory fresh_db)
      (put_grant sample_crates memory true rec fresh_db)
put_grant_atomic_example = put_grant_atomic sample_crates memory true rec fresh_db

issued :
    (issue sample_crates issuer false 1_769_904_000)
    ≡ ok (
      sample_crates.to_token (
        record {
          signer = false;
          spending_cap = 10_000_000;
          pool_id = true;
          expiry = 1_772_496_000;
        },
        true,
      ),
      1_772_496_000,
    )
unfolding issue sample_sign saturating_add
issued = refl

issue-Delegates_example :
    Delegates sample_crates issuer false 1_769_904_000
      (sample_crates.to_token (
        record {
          signer = false;
          spending_cap = 10_000_000;
          pool_id = true;
          expiry = 1_772_496_000;
        },
        true,
      ))
      1_772_496_000
issue-Delegates_example = issue-Delegates sample_crates issuer false 1_769_904_000 _ _ issued

abbrev digest : Text
digest = lit "0123456789abcdef0123456789abcdef0123456789abcdef0123456789abcdef"

abbrev pin : ReleasePin
pin = record { tag = lit "v1.0.0-rc.1"; sums_sha256 = digest }

pinned : new_pin (lit "v1.0.0-rc.1") digest ≡ ok pin
unfolding new_pin is_release_tag strip_prefix split_once split bytes
pinned = refl

new_pin_iff_example : (new_pin (lit "v1.0.0-rc.1") digest ≡ ok pin) ↔ (
    IsTag (lit "v1.0.0-rc.1")
    × IsDigest digest
    × (pin ≡ record { tag = lit "v1.0.0-rc.1"; sums_sha256 = digest }))
new_pin_iff_example = new_pin_iff (lit "v1.0.0-rc.1") digest pin

new_pin-All-IsPlain_example : All IsPlain pin.tag × All IsPlain pin.sums_sha256
new_pin-All-IsPlain_example = new_pin-All-IsPlain (lit "v1.0.0-rc.1") digest pin pinned

abbrev ops : List (Op sample_crates memory)
ops = put true rec ∷ get true ∷ get false ∷ []

fresh-Represents : Represents sample_crates memory (λ j. none) fresh_db
unfolding decode_row
fresh-Represents j = refl

calls-Replays_example :
    (m : Grants sample_crates memory) × Replays sample_crates memory
      (λ j. none)
      ops
      (calls sample_crates memory ops fresh_db).0
      m
    × Represents sample_crates memory m (calls sample_crates memory ops fresh_db).1
calls-Replays_example =
    calls-Replays sample_crates memory ops (λ j. none) fresh_db (rec-IsRecord, (tt, (tt, tt)))
      fresh-Represents
