-- ===== src/Wrapper/Files.antt =====
-- The calls of `std::fs` that the wrapper makes, on a Unix system: a path names at most one entry,
-- and a call that the system refuses (permissions, a full disk, a missing parent) is one that
-- breaks. A script of luck says which calls break and what they leave behind, so a statement for
-- every script covers every refusal and every interruption between two calls.
pub mod Laws
use sponsor.Common.{
  ℕ, Bool, true, false, ◌||◌, not, Option, none, some, List, [], ◌∷◌, ◌++◌, String, take,
  if◌then◌else◌,
}
use sponsor.Common.Result.{Result, ok, err}
use sponsor.Common.Action.{Action, ◌>>=◌, ◌>>◌, lift, pure}
use sponsor.Common.Text.{Text, lit, text_eq}
use sponsor.Wrapper.Config.{join}
use sponsor.Wrapper.Keystore.{starts_with}

-- A broken `write_all` has written so many bytes; a broken `remove_dir_all` has left the paths that
-- pass the test.
pub data Luck : Type 0 where
  works : Luck
  breaks : (written : ℕ) (left : Text → Bool) → Luck

pub data Entry : Type 0 where
  file : (mode : ℕ) (content : List ℕ) → Entry
  directory : (mode : ℕ) → Entry

pub record Disk : Type 0 where
  pub entry : Text → Option Entry
  pub lucks : List Luck

abbrev pub first : List Luck → Luck
first [] = works
first (l ∷ ls) = l

abbrev pub later : List Luck → List Luck
later [] = []
later (l ∷ ls) = ls

-- A call that changes nothing.
abbrev pub spent : Disk → Disk
spent d = record { entry = d.entry; lucks = later d.lucks }

-- A call that changes the entry of one path.
abbrev pub put : Text → Option Entry → Disk → Disk
put path e d = record {
  entry = λ q. if text_eq q path then e else d.entry q;
  lucks = later d.lucks;
}

-- `Path::exists` and `Path::is_file`, of a path whose metadata can be read: they cannot fail, but
-- they say no for any other.
abbrev pub is_some : Option Entry → Bool
is_some none = false
is_some (some e) = true

abbrev pub is_regular : Option Entry → Bool
is_regular (some (file mode content)) = true
is_regular _ = false

unfoldable pub exists : Text → Disk → Bool
exists path d = is_some (d.entry path)

unfoldable pub is_file : Text → Disk → Bool
is_file path d = is_regular (d.entry path)

-- `std::fs::read`
abbrev pub content_of : Luck → Option Entry → Result (List ℕ)
content_of works (some (file mode content)) = ok content
content_of _ _ = err "read"

unfoldable pub read : Text → Action Disk (List ℕ)
read path d = (content_of (first d.lucks) (d.entry path), spent d)

-- What `remove_file` says, as far as the caller looks at it.
pub data Removed : Type 0 where
  removed not_found refused : Removed

abbrev pub removal : Text → Luck → Option Entry → Disk → Removed × Disk
removal path works (some (file mode content)) d = (removed, put path none d)
removal path works (some (directory mode)) d = (refused, spent d)
removal path works none d = (not_found, spent d)
removal path (breaks n left) e d = (refused, spent d)

-- `std::fs::remove_file`
unfoldable pub remove_file : Text → Disk → Removed × Disk
remove_file path d = removal path (first d.lucks) (d.entry path) d

-- `OpenOptions::new().write(true).create(true).truncate(true).mode(mode).open(path)`; the mode is
-- for a file that is created.
abbrev pub opened : Text → ℕ → Luck → Option Entry → Action Disk (Unit {0})
opened path mode works none d = (ok tt, put path (some (file mode [])) d)
opened path mode works (some (file m content)) d = (ok tt, put path (some (file m [])) d)
opened path mode works (some (directory m)) d = (err "open", spent d)
opened path mode (breaks n left) e d = (err "open", spent d)

unfoldable pub open_truncated : Text → ℕ → Action Disk (Unit {0})
open_truncated path mode d = opened path mode (first d.lucks) (d.entry path) d

-- `write_all` to a file that was opened and truncated
abbrev pub written : Text → List ℕ → Luck → Option Entry → Action Disk (Unit {0})
written path new works (some (file mode content)) d = (ok tt, put path (some (file mode new)) d)
written path new (breaks n left) (some (file mode content)) d =
    (err "write", put path (some (file mode (take n new))) d)
written path new _ _ d = (err "write", spent d)

unfoldable pub write_all : Text → List ℕ → Action Disk (Unit {0})
write_all path new d = written path new (first d.lucks) (d.entry path) d

-- `DirBuilder::new().recursive(true).mode(mode).create(path)`; the parents that it creates are not
-- entries of the model.
abbrev pub created : Text → ℕ → Luck → Option Entry → Action Disk (Unit {0})
created path mode works none d = (ok tt, put path (some (directory mode)) d)
created path mode works (some (directory m)) d = (ok tt, spent d)
created path mode works (some (file m content)) d = (err "create", spent d)
created path mode (breaks n left) e d = (err "create", spent d)

unfoldable pub create_dir : Text → ℕ → Action Disk (Unit {0})
create_dir path mode d = created path mode (first d.lucks) (d.entry path) d

-- `std::fs::set_permissions`
abbrev pub with_mode : ℕ → Entry → Entry
with_mode mode (file m content) = file mode content
with_mode mode (directory m) = directory mode

abbrev pub permitted : Text → ℕ → Luck → Option Entry → Action Disk (Unit {0})
permitted path mode works (some e) d = (ok tt, put path (some (with_mode mode e)) d)
permitted path mode _ _ d = (err "chmod", spent d)

unfoldable pub set_permissions : Text → ℕ → Action Disk (Unit {0})
set_permissions path mode d = permitted path mode (first d.lucks) (d.entry path) d

-- A path at or below a directory.
unfoldable pub below : Text → Text → Bool
below dir path = text_eq path dir || starts_with path (join dir [])

-- The entries that stay when all at and below `dir` are removed but those that pass the test.
abbrev pub swept : Text → (Text → Bool) → Disk → Disk
swept dir left d = record {
  entry = λ q. if below dir q then (if left q then d.entry q else none) else d.entry q;
  lucks = later d.lucks;
}

abbrev pub cleared : Text → Luck → Option Entry → Action Disk (Unit {0})
cleared dir works (some (directory mode)) d = (ok tt, swept dir (λ q. false) d)
cleared dir (breaks n left) (some (directory mode)) d = (err "remove", swept dir left d)
cleared dir _ _ d = (err "remove", spent d)

-- `std::fs::remove_dir_all`
unfoldable pub remove_dir_all : Text → Action Disk (Unit {0})
remove_dir_all dir d = cleared dir (first d.lucks) (d.entry dir) d
