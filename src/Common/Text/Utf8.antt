-- ===== src/Common/Text/Utf8.antt =====
-- `str::as_bytes` and `String::from_utf8`.
pub mod Ascii
use Prim.Native.Nat.{ℕ, ◌+◌, ◌-◌, ◌*◌, ◌/◌, ◌%◌, ◌≤◌, ◌<◌}
use mathlib.Core.Path.{◌≡◌, refl, ◌∙◌}
use mathlib.Core.Logic.{◌⊎◌}
use mathlib.Core.Bool.{Bool, ◌&&◌, ◌||◌}
use mathlib.Core.Option
use mathlib.Core.Option.{Option, none, some}
use mathlib.Core.List.{List, [], ◌∷◌, ◌++◌}
use native.Mathlib.Omega.{arith}
use sponsor.Common.Tests.{ltb, leb, if◌then◌else◌}
use sponsor.Common.Lists.{All}

-- A `char`: no surrogate, and at most 0x10ffff.
abbrev pub IsScalar : ℕ → Type 0
IsScalar c = (c < 0xd800) ⊎ ((0xe000 ≤ c) × (c < 0x110000))

abbrev pub IsText : List ℕ → Type 0
IsText = All IsScalar

char_bytes : ℕ → List ℕ
char_bytes c =
    if ltb c 0x80
    then c ∷ []
    else if ltb c 0x800
    then (0xc0 + c / 64) ∷ (0x80 + c % 64) ∷ []
    else if ltb c 0x10000
    then (0xe0 + c / 4096) ∷ (0x80 + c / 64 % 64) ∷ (0x80 + c % 64) ∷ []
    else (0xf0 + c / 262144) ∷ (0x80 + c / 4096 % 64) ∷ (0x80 + c / 64 % 64) ∷ (0x80 + c % 64) ∷ []

-- `str::as_bytes`, `str::bytes`
unfoldable pub bytes : List ℕ → List ℕ
unfolding char_bytes
bytes [] = []
bytes (c ∷ s) = char_bytes c ++ bytes s

-- Between two bytes: at the start of a character, or with continuation bytes to come, the bits read
-- so far, and the least code point of this length.
pub data Pending : Type 0 where
  ready : Pending
  one two three : (bits least : ℕ) → Pending

pub data Progress : Type 0 where
  bad : Progress
  wait : Pending → Progress
  char : ℕ → Progress

is_continuation : ℕ → Bool
is_continuation b = leb 0x80 b && leb b 0xbf

is_scalar : ℕ → Bool
is_scalar c = ltb c 0xd800 || (leb 0xe000 c && ltb c 0x110000)

abbrev extend : ℕ → ℕ → ℕ
extend bits b = bits * 64 + (b - 0x80)

advance : Pending → ℕ → Progress
unfolding is_continuation is_scalar
advance ready b =
    if ltb b 0x80
    then char b
    else if leb 0xc2 b && leb b 0xdf
    then wait (one (b - 0xc0) 0x80)
    else if leb 0xe0 b && leb b 0xef
    then wait (two (b - 0xe0) 0x800)
    else if leb 0xf0 b && leb b 0xf4
    then wait (three (b - 0xf0) 0x10000)
    else bad
advance (one bits least) b =
    if is_continuation b && leb least (extend bits b) && is_scalar (extend bits b)
    then char (extend bits b)
    else bad
advance (two bits least) b = if is_continuation b then wait (one (extend bits b) least) else bad
advance (three bits least) b = if is_continuation b then wait (two (extend bits b) least) else bad

decode_from : Pending → List ℕ → Option (List ℕ)
unfolding advance
decode_from ready [] = some []
decode_from _ [] = none
decode_from p (b ∷ bs) = elim (advance p b) [
  | bad ↦ none
  | wait q ↦ decode_from q bs
  | char c ↦ Option.map (λ s. c ∷ s) (decode_from ready bs)
]

-- `String::from_utf8`
unfoldable pub from_utf8 : List ℕ → Option (List ℕ)
unfolding decode_from
from_utf8 bs = decode_from ready bs

decode_from-wait :
    (p q : Pending) (b : ℕ) (bs : List ℕ)
    → advance p b ≡ wait q
    → decode_from p (b ∷ bs) ≡ decode_from q bs
unfolding decode_from
decode_from-wait ready q b bs h = rw (h, decode_from)
decode_from-wait (one _ _) q b bs h = rw (h, decode_from)
decode_from-wait p q b bs h = rw (h, decode_from)

decode_from-char :
    (p : Pending) (b c : ℕ) (bs : List ℕ)
    → advance p b ≡ char c
    → decode_from p (b ∷ bs) ≡ Option.map (λ s. c ∷ s) (decode_from ready bs)
unfolding decode_from
decode_from-char ready b c bs h = rw (h, decode_from)
decode_from-char (one _ _) b c bs h = rw (h, decode_from)
decode_from-char p b c bs h = rw (h, decode_from)

-- How the bytes of one character are read, by the length of its encoding.
advance_ascii : (c : ℕ) → c < 0x80 → advance ready c ≡ char c
unfolding advance
advance_ascii c h = ground arith

advance_lead_two : (q : ℕ) → 2 ≤ q → q < 32 → advance ready (0xc0 + q) ≡ wait (one q 0x80)
unfolding advance
advance_lead_two q h k = ground arith

advance_lead_three : (q : ℕ) → q < 16 → advance ready (0xe0 + q) ≡ wait (two q 0x800)
unfolding advance
advance_lead_three q h = ground arith

advance_lead_four : (q : ℕ) → q < 5 → advance ready (0xf0 + q) ≡ wait (three q 0x10000)
unfolding advance
advance_lead_four q h = ground arith

advance_three :
    (bits least r : ℕ)
    → r < 64
    → advance (three bits least) (0x80 + r) ≡ wait (two (bits * 64 + r) least)
unfolding advance
advance_three bits least r h = ground arith

advance_two :
    (bits least r : ℕ)
    → r < 64
    → advance (two bits least) (0x80 + r) ≡ wait (one (bits * 64 + r) least)
unfolding advance
advance_two bits least r h = ground arith

advance_last :
    (bits least r c : ℕ)
    → r < 64
    → bits * 64 + r ≡ c
    → least ≤ c
    → IsScalar c
    → advance (one bits least) (0x80 + r) ≡ char c
unfolding advance
advance_last bits least r c h e l s = ground arith

abbrev pushed : ℕ → List ℕ → Option (List ℕ)
pushed c bs = Option.map (λ s. c ∷ s) (decode_from ready bs)

module _ (c : ℕ) (bs : List ℕ) (scalar : IsScalar c) where
  read_one : c < 0x80 → decode_from ready (c ∷ bs) ≡ pushed c bs
  read_one h = decode_from-char ready c c bs (advance_ascii c h)

  read_two :
      0x80 ≤ c
      → c < 0x800
      → decode_from ready ((0xc0 + c / 64) ∷ (0x80 + c % 64) ∷ bs) ≡ pushed c bs
  read_two low high =
      decode_from-wait ready _ _ _ (advance_lead_two (c / 64) (omega arith) (omega arith))
      ∙ decode_from-char (one _ _) _ c bs
          (advance_last (c / 64) 0x80 (c % 64) c (omega arith) (omega arith) low scalar)

  read_three :
      0x800 ≤ c
      → c < 0x10000
      → decode_from ready ((0xe0 + c / 4096) ∷ (0x80 + c / 64 % 64) ∷ (0x80 + c % 64) ∷ bs)
        ≡ pushed c bs
  read_three low high =
      decode_from-wait ready _ _ _ (advance_lead_three (c / 4096) (omega arith))
      ∙ decode_from-wait (two _ _) _ _ _ (advance_two (c / 4096) 0x800 (c / 64 % 64) (omega arith))
      ∙ decode_from-char (one _ _) _ c bs (
          advance_last (c / 4096 * 64 + c / 64 % 64) 0x800 (c % 64) c (omega arith) (omega arith)
            low scalar)

  read_four :
      0x10000 ≤ c
      → decode_from ready (
          (0xf0 + c / 262144)
          ∷ (0x80 + c / 4096 % 64)
          ∷ (0x80 + c / 64 % 64)
          ∷ (0x80 + c % 64)
          ∷ bs)
        ≡ pushed c bs
  read_four low =
      decode_from-wait ready _ _ _ (advance_lead_four (c / 262144) (omega arith))
      ∙ decode_from-wait (three _ _) _ _ _
          (advance_three (c / 262144) 0x10000 (c / 4096 % 64) (omega arith))
      ∙ decode_from-wait (two _ _) _ _ _
          (advance_two (c / 262144 * 64 + c / 4096 % 64) 0x10000 (c / 64 % 64) (omega arith))
      ∙ decode_from-char (one _ _) _ c bs (
          advance_last ((c / 262144 * 64 + c / 4096 % 64) * 64 + c / 64 % 64) 0x10000 (c % 64) c
            (omega arith) (omega arith) low scalar)

  decode_from-char_bytes : decode_from ready (char_bytes c ++ bs) ≡ pushed c bs
  unfolding char_bytes
  decode_from-char_bytes = ground (arith, read_one, read_two, read_three, read_four)

-- Every text is read back from its bytes.
pub from_utf8-bytes : (s : List ℕ) → IsText s → from_utf8 (bytes s) ≡ some s
unfolding from_utf8 bytes
from_utf8-bytes [] h = refl
from_utf8-bytes (c ∷ s) h = decode_from-char_bytes c (bytes s) h.0 ∙ rw (from_utf8-bytes s h.1)
