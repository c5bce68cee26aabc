-- ===== src/Common/Text.antt =====
-- A `str` or `String` is the list of its code points, and its bytes are its UTF-8 encoding.
-- The functions of the standard library's `str` that the program calls.
pub mod Utf8
pub mod Trim
pub mod Path
pub mod Split
pub mod Fill
pub mod Compare
pub mod Number
pub mod Replace
pub use Utf8.{IsScalar, IsText, from_utf8-bytes}
unfoldable pub use Utf8.{bytes, from_utf8}
use Prim.Native.Nat.{ℕ, ◌+◌, ◌-◌}
use Prim.Native.Char.{code}
use Prim.Native.String.{String}
use mathlib.Core.Path.{◌≡◌, refl}
use mathlib.Core.Bool.{Bool, true, false, ◌&&◌, ◌||◌}
use mathlib.Core.Option.{Option, none, some}
use mathlib.Core.List.{List, [], ◌∷◌}
use native.Mathlib.Omega.{arith}
use sponsor.Common.Tests.{leb, ◌==◌, ==_iff, &&-eq-true, if◌then◌else◌}

abbrev pub Text : Type 0
Text = List ℕ

-- A literal of the source.
abbrev pub lit : String → Text
lit String.[] = []
lit (String.◌∷◌ c s) = code c ∷ lit s

-- `==` on texts.
unfoldable pub text_eq : Text → Text → Bool
text_eq [] [] = true
text_eq (a ∷ s) (b ∷ t) = a == b && text_eq s t
text_eq _ _ = false
