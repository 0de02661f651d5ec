-- ===== src/Common/Texts.antt =====
-- Texts: strings.Split at dots and strings.Join.
use Prim.Native.Char.{Char, code}
use Prim.Native.String.{String, [], ◌∷◌}
use Prim.Native.String.{◌++◌ as str_append}
use mathlib.Core.List.{List, [], ◌∷◌}
use mathlib.Core.Bool.{Bool, true, false}
use text.Mathlib.Text.{◌==◌ as str_eq}
use protostate.Common.Tests.{◌==◌, if◌then◌else◌}

-- A character in front of the first part.
abbrev pub push_first : Char → List String → List String
push_first c [] = (c ∷ []) ∷ []
push_first c (p ∷ ps) = (c ∷ p) ∷ ps

-- strings.Split(s, ".")
unfoldable pub split_dots : String → List String
split_dots [] = "" ∷ []
split_dots (c ∷ s) =
    let rest = split_dots s in if code c == b'.' then "" ∷ rest else push_first c rest

-- strings.Join
unfoldable pub join : String → List String → String
join separator [] = ""
join separator (s ∷ []) = s
join separator (s ∷ t ∷ ss) = str_append s (str_append separator (join separator (t ∷ ss)))

-- strings.HasPrefix
unfoldable pub has_prefix : String → String → Bool
has_prefix s [] = true
has_prefix [] (d ∷ prefix) = false
has_prefix (c ∷ s) (d ∷ prefix) =
    let rest = has_prefix s prefix in if code c == code d then rest else false

-- strings.TrimSuffix
unfoldable pub trim_suffix : String → String → String
trim_suffix [] suffix = ""
trim_suffix (c ∷ s) suffix =
    let rest = trim_suffix s suffix in if str_eq (c ∷ s) suffix then "" else (c ∷ rest)
