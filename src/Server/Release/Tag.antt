-- ===== src/Server/Release/Tag.antt =====
-- The tags that `is_release_tag` accepts: vMAJOR.MINOR.PATCH, with an optional -pre.
use sponsor.Common.{
  ℕ, ◌≡◌, ◌≢◌, ◌↔◌, refl, sym, ap, ◌∙◌, Bool, true, false, List, [], ◌∷◌, ◌++◌, Option, none, some,
  all, All-append, All-of_all, length, ◌==◌, ==_iff, ◌&&◌, ◌||◌, arith, &&-eq-true, append-nil,
}
use sponsor.Common.Text.{Text, lit}
use sponsor.Common.Text.Utf8.Ascii.{all-bytes}
use sponsor.Common.Text.Split.{
  strip_prefix, split_once, split, join, join-split, strip_prefix-eq-some, strip_prefix-append,
  split_once-eq-some, split_once-append, split_once_of_Without, split-append, split_of_Without,
  Without,
}
use sponsor.Server.Release.{
  is_release_tag, is_ascii_digit, is_ascii_alphanumeric, is_part, none_or_pre, is_version,
  core_and_pre,
}

abbrev pub is_pre_char : ℕ → Bool
is_pre_char b = is_ascii_alphanumeric b || b == b'.' || b == b'-'

-- A number as it stands in a tag, over code points.
abbrev pub IsNumber : Text → Type 0
IsNumber p = (p ≢ []) × (all is_ascii_digit p ≡ true)

abbrev pub IsPre : Option Text → Type 0
IsPre none = Unit
IsPre (some p) = (p ≢ []) × (all is_pre_char p ≡ true)

abbrev pub suffix : Option Text → Text
suffix none = []
suffix (some p) = b'-' ∷ p

abbrev pub core_text : Text → Text → Text → Text
core_text major minor patch = major ++ (b'.' ∷ (minor ++ (b'.' ∷ patch)))

pub record IsTag (tag : Text) : Type 0 where
  pub major : Text
  pub minor : Text
  pub patch : Text
  pub pre : Option Text
  pub shape : tag ≡ b'v' ∷ (core_text major minor patch ++ suffix pre)
  pub major_IsNumber : IsNumber major
  pub minor_IsNumber : IsNumber minor
  pub patch_IsNumber : IsNumber patch
  pub pre_IsPre : IsPre pre

is_part_iff : (p : Text) → (is_part p ≡ true) ↔ IsNumber p
is_part_iff [] = ground arith
is_part_iff (c ∷ p) =
    rw (all-bytes is_ascii_digit (λ b h. ground arith) (c ∷ p)) ((λ h. (cc, h)), λ h. h.1)

IsPre-iff : (p : Option Text) → (none_or_pre p ≡ true) ↔ IsPre p
IsPre-iff none = ((λ h. tt), λ h. refl)
IsPre-iff (some []) = ground arith
IsPre-iff (some (c ∷ p)) =
    rw (all-bytes is_pre_char (λ b h. ground arith) (c ∷ p)) ((λ h. (cc, h)), λ h. h.1)

-- Three parts, as the test on `core.split('.')` finds them.
record IsCore (core : Text) : Type 0 where
  major : Text
  minor : Text
  patch : Text
  joined : core ≡ core_text major minor patch
  numbers : IsNumber major × IsNumber minor × IsNumber patch

IsCore-of_parts :
    (parts : List Text) (core : Text)
    → join b'.' parts ≡ core
    → (length parts == 3 && all is_part parts) ≡ true
    → IsCore core
unfolding join
IsCore-of_parts (a ∷ b ∷ c ∷ []) core e h =
    let (ha, rest) = &&-eq-true (is_part a) (is_part b && (is_part c && true)) h in
    let (hb, rest') = &&-eq-true (is_part b) (is_part c && true) rest in
    let (hc, _) = &&-eq-true (is_part c) true rest' in
    record {
      major = a;
      minor = b;
      patch = c;
      joined = sym e;
      numbers = ((is_part_iff a).0 ha, (is_part_iff b).0 hb, (is_part_iff c).0 hc);
    }
IsCore-of_parts [] core e h = cc
IsCore-of_parts (a ∷ []) core e h = cc
IsCore-of_parts (a ∷ b ∷ []) core e h = cc
IsCore-of_parts (a ∷ b ∷ c ∷ d ∷ r) core e h =
    absurd (omega (arith, (==_iff (length (a ∷ b ∷ c ∷ d ∷ r)) 3).0 (&&-eq-true _ _ h).0))

IsTag-of_core :
    (tag core : Text) (pre : Option Text)
    → tag ≡ b'v' ∷ (core ++ suffix pre)
    → (length (split b'.' core) == 3 && all is_part (split b'.' core) && none_or_pre pre) ≡ true
    → IsTag tag
IsTag-of_core tag core pre e h =
    let (parts_ok, pre_ok) =
      &&-eq-true (length (split b'.' core) == 3 && all is_part (split b'.' core)) (none_or_pre pre)
        (ground arith) in
    let c = IsCore-of_parts (split b'.' core) core (join-split b'.' core) parts_ok in
    record {
      major = c.major;
      minor = c.minor;
      patch = c.patch;
      pre = pre;
      shape = e ∙ ap (λ t. b'v' ∷ (t ++ suffix pre)) c.joined;
      major_IsNumber = c.numbers.0;
      minor_IsNumber = c.numbers.1;
      patch_IsNumber = c.numbers.2;
      pre_IsPre = (IsPre-iff pre).0 pre_ok;
    }

IsTag-of_version :
    (tag version : Text) → tag ≡ b'v' ∷ version → is_version version ≡ true → IsTag tag
IsTag-of_version tag version e h = split_case (split_once b'-' version) refl
  where
    split_case : (o : Option (Text × Text)) → split_once b'-' version ≡ o → IsTag tag
    split_case none found =
        IsTag-of_core tag version none (e ∙ ap (λ t. b'v' ∷ t) (sym (append-nil version)))
          (rw found at h)
    split_case (some (core, pre)) found =
        IsTag-of_core tag core (some pre)
          (e ∙ ap (λ t. b'v' ∷ t) (split_once-eq-some b'-' version core pre found).0)
          (rw found at h)

is_release_tag_sound : (tag : Text) → is_release_tag tag ≡ true → IsTag tag
unfolding is_release_tag
is_release_tag_sound tag h = stripped (strip_prefix (lit "v") tag) refl
  where
    stripped : (o : Option Text) → strip_prefix (lit "v") tag ≡ o → IsTag tag
    stripped none e = absurd (cc)
    stripped (some version) e =
        IsTag-of_version tag version (strip_prefix-eq-some (lit "v") tag version e) (rw e at h)

Without-of_number : (sep : ℕ) (p : Text) → is_ascii_digit sep ≡ false → IsNumber p → Without sep p
Without-of_number sep p h (_, digits) =
    All-of_all (λ c. c ≢ sep) is_ascii_digit p (λ c hc e. cc) digits

module _ (major minor patch : Text) (a : IsNumber major) (b : IsNumber minor)
    (c : IsNumber patch) where
  split-core_text : split b'.' (core_text major minor patch) ≡ major ∷ minor ∷ patch ∷ []
  split-core_text =
      split-append b'.' major (minor ++ (b'.' ∷ patch)) (Without-of_number b'.' major refl a)
      ∙ ap (λ r. major ∷ r)
          (split-append b'.' minor patch (Without-of_number b'.' minor refl b)
            ∙ ap (λ r. minor ∷ r)
                (split_of_Without b'.' patch (Without-of_number b'.' patch refl c)))

  core_text-Without : Without b'-' (core_text major minor patch)
  core_text-Without = All-append _ major _ (Without-of_number b'-' major refl a) (
    (λ e. cc),
    All-append _ minor _ (Without-of_number b'-' minor refl b)
        ((λ e. cc), Without-of_number b'-' patch refl c),
  )

  split_once-core_text :
      (pre : Option Text)
      → core_and_pre
          (core_text major minor patch ++ suffix pre)
          (split_once b'-' (core_text major minor patch ++ suffix pre))
        ≡ (core_text major minor patch, pre)
  split_once-core_text none =
      rw (append-nil (core_text major minor patch))
        (rw (split_once_of_Without b'-' (core_text major minor patch) core_text-Without))
  split_once-core_text (some p) =
      rw (split_once-append b'-' (core_text major minor patch) p core_text-Without)

is_release_tag_complete : (tag : Text) → IsTag tag → is_release_tag tag ≡ true
unfolding is_release_tag
is_release_tag_complete tag t =
    let core = core_text t.major t.minor t.patch in
    rw (
      t.shape,
      strip_prefix-append (lit "v") (core ++ suffix t.pre),
      split_once-core_text t.major t.minor t.patch t.major_IsNumber t.minor_IsNumber
          t.patch_IsNumber t.pre,
      split-core_text t.major t.minor t.patch t.major_IsNumber t.minor_IsNumber t.patch_IsNumber,
      (is_part_iff t.major).1 t.major_IsNumber,
      (is_part_iff t.minor).1 t.minor_IsNumber,
      (is_part_iff t.patch).1 t.patch_IsNumber,
      (IsPre-iff t.pre).1 t.pre_IsPre,
    )

-- The tags that are accepted are exactly `v`, three numbers joined by dots, and perhaps a dash
-- with a suffix of letters, digits, dots and dashes.
pub is_release_tag_iff : (tag : Text) → (is_release_tag tag ≡ true) ↔ IsTag tag
is_release_tag_iff tag = (is_release_tag_sound tag, is_release_tag_complete tag)
