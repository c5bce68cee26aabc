-- ===== src/Wrapper/Files/Laws.antt =====
-- What a call leaves at the path that it names, and at every other.
use sponsor.Common.{◌≡◌, ◌≢◌, refl, Option}
use sponsor.Common.Text.{Text}
pub use sponsor.Common.Text.Compare.{text_eq_iff, text_eq_self, text_eq_of_ne}
use sponsor.Wrapper.Files.{Disk, Entry, put}

pub put_self : (path : Text) (e : Option Entry) (d : Disk) → (put path e d).entry path ≡ e
put_self path e d = rw (text_eq_self path) refl

pub put_other :
    (path q : Text) (e : Option Entry) (d : Disk) → q ≢ path → (put path e d).entry q ≡ d.entry q
put_other path q e d h = rw (text_eq_of_ne q path h) refl
