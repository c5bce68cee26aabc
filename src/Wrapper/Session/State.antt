-- ===== src/Wrapper/Session/State.antt =====
-- crates/wrapper/src/session.rs: the state directory of a download, over the file calls.
use sponsor.Common.{ℕ, false, Option, none, List, if◌then◌else◌}
use sponsor.Common.Result.{Result, ok, err, ok_or, to_option}
use sponsor.Common.Action.{Action, ◌>>=◌, ◌>>◌, lift, pure}
use sponsor.Common.Text.{Text, lit, bytes, from_utf8}
use sponsor.Common.Text.Trim.{trim}
use sponsor.Crates.{Crates}
use sponsor.Wrapper.Config.{join}
use sponsor.Wrapper.Files.{
  Disk, Removed, removed, not_found, refused, exists, is_file, read, remove_file, open_truncated,
  write_all, create_dir, set_permissions, remove_dir_all,
}
use sponsor.Wrapper.Keystore.{read_address}
use sponsor.Wrapper.Session.Identity.{Identity}

-- Session
pub record Session : Type 0 where
  pub dir : Text

-- Session::password_path
abbrev pub password_path : Session → Text
password_path s = join s.dir (lit "password")

-- Session::capability_path
abbrev pub capability_path : Session → Text
capability_path s = join s.dir (lit "capability")

-- create_private_dir
unfoldable pub create_private_dir : Text → Action Disk (Unit {0})
create_private_dir dir = do create_dir dir 0o700; set_permissions dir 0o700

abbrev pub unless_refused : Removed × Disk → Result (Unit {0}) × Disk
unless_refused (refused, d) = (err "remove", d)
unless_refused (removed, d) = (ok tt, d)
unless_refused (not_found, d) = (ok tt, d)

-- remove_if_present
unfoldable pub remove_if_present : Text → Action Disk (Unit {0})
remove_if_present path d = unless_refused (remove_file path d)

-- write_private
unfoldable pub write_private : Text → List ℕ → Action Disk (Unit {0})
write_private path new = do open_truncated path 0o600; write_all path new

-- Session::open
unfoldable pub open_session : Text → Text → Action Disk Session
unfolding create_private_dir
open_session root hash = do
  create_private_dir (join (join root (lit "downloads")) hash)
  pure (record { dir = join (join root (lit "downloads")) hash })

-- Session::save_capability
unfoldable pub save_capability : Session → Text → Action Disk (Unit {0})
save_capability s token = write_private (capability_path s) (bytes token)

-- Session::discard
unfoldable pub discard : Session → Action Disk (Unit {0})
discard s = remove_dir_all s.dir

module _ (crates : Crates) (identity : Identity crates) where
  open crates use {Address, Grant, from_token}
  open identity use {from_slice, address_field, hex_encode, generate_and_persist}

  -- Session::keystore_path
  abbrev pub keystore_path : Session → Text
  keystore_path s = identity.keystore_path s.dir

  -- `crate::keystore::read_address(&keystore)`
  unfoldable pub address_at : Text → Action Disk Address
  address_at path d =
      let (r, d') = read path d in
      (read_address crates (λ (p : Text). r) from_slice address_field path, d')

  -- From the randomness on: `filled` is what `getrandom::fill` left in the secret.
  unfoldable pub fresh_key : Result (List ℕ) → Session → Action Disk Address
  fresh_key filled s = do
    secret ← lift filled
    write_private (password_path s) (bytes (hex_encode secret))
    generate_and_persist s.dir (hex_encode secret) false

  unfoldable pub replace_key : Result (List ℕ) → Session → Action Disk Address
  replace_key filled s = do
    remove_if_present (keystore_path s)
    remove_if_present (capability_path s)
    fresh_key filled s

  -- Session::ensure_key
  unfoldable pub ensure_key : Result (List ℕ) → Session → Action Disk Address
  ensure_key filled s d =
      if exists (keystore_path s) d
      then (if is_file (password_path s) d
          then address_at (keystore_path s) d
          else replace_key filled s d)
      else fresh_key filled s d

  unfoldable pub read_capability : Session → Action Disk (Option Grant)
  read_capability s = do
    raw ← read (capability_path s)
    token ← lift (ok_or (from_utf8 raw) "stream did not contain valid UTF-8")
    pure (to_option (from_token (trim token)))

  -- Session::capability
  unfoldable pub capability : Session → Action Disk (Option Grant)
  unfolding read_capability
  capability s d = if exists (capability_path s) d then read_capability s d else (ok none, d)
