-- ===== src/Common/Text/Path.antt =====
-- `str::starts_with`, and `Path::join` on a Unix system.
use sponsor.Common.{Bool, true, false, ◌||◌, none, some, ◌∷◌, [], ◌++◌, if◌then◌else◌}
use sponsor.Common.Text.{Text, lit, text_eq}
use sponsor.Common.Text.Split.{strip_prefix}

-- `str::starts_with`
unfoldable pub starts_with : Text → Text → Bool
starts_with s p = elim (strip_prefix p s) [ some rest ↦ true | none ↦ false ]

-- The last character of a path is a slash.
abbrev pub ends_in_slash : Text → Bool
ends_in_slash [] = false
ends_in_slash (c ∷ []) = text_eq (c ∷ []) (lit "/")
ends_in_slash (c ∷ d ∷ s) = ends_in_slash (d ∷ s)

-- `Path::join`: an absolute path replaces, another is put behind a slash.
unfoldable pub join : Text → Text → Text
unfolding starts_with text_eq
join base path =
    if starts_with path (lit "/")
    then path
    else if text_eq base [] || ends_in_slash base
    then base ++ path
    else base ++ (lit "/" ++ path)
