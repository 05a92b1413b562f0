-- ===== src/Admin/Texts.antt =====
-- The functions of Go's `strings` and `path/filepath` packages that the handlers call, on texts as
-- lists of characters.
use Prim.Native.Char.{Char, code}
use Prim.Native.String.{String, [], ◌∷◌}
use xds_relay.Prelude.{Bool, true, false, Option, none, some, ◌==◌, str_eq, if◌then◌else◌}

abbrev pub is_slash : Char → Bool
is_slash c = code c == 47

-- What follows a prefix, if the text has it.
unfoldable pub after_prefix : String → String → Option String
after_prefix s [] = some s
after_prefix [] (c ∷ p) = none
after_prefix (d ∷ s) (c ∷ p) =
    let rest = after_prefix s p in if code d == code c then rest else none

abbrev pub add_first : Char → Option String → Option String
add_first c none = none
add_first c (some s) = some (c ∷ s)

-- What precedes a suffix, if the text has it.
unfoldable pub before_suffix : String → String → Option String
before_suffix [] t = if str_eq [] t then some [] else none
before_suffix (c ∷ s) t =
    let rest = before_suffix s t in if str_eq (c ∷ s) t then some [] else add_first c rest

abbrev pub is_some : Option String → Bool
is_some none = false
is_some (some _) = true

abbrev pub get_or : Option String → String → String
get_or none s = s
get_or (some t) s = t

abbrev pub has_prefix : String → String → Bool
has_prefix s p = is_some (after_prefix s p)

abbrev pub has_suffix : String → String → Bool
has_suffix s t = is_some (before_suffix s t)

abbrev pub trim_prefix : String → String → String
trim_prefix s p = get_or (after_prefix s p) s

abbrev pub trim_suffix : String → String → String
trim_suffix s t = get_or (before_suffix s t) s

-- What follows the last slash, if there is one.
unfoldable pub after_slash : String → Option String
after_slash [] = none
after_slash (c ∷ s) =
    let rest = after_slash s in
    elim rest [ some file ↦ some file | none ↦ if is_slash c then some s else none ]

-- The file that filepath.Split returns.
abbrev pub file_of : String → String
file_of s = get_or (after_slash s) s

-- The slashes at the end are dropped.
unfoldable pub strip_slashes : String → String
strip_slashes [] = []
strip_slashes (c ∷ s) =
    let rest = strip_slashes s in
    elim rest [ [] ↦ if is_slash c then [] else c ∷ [] | d ∷ t ↦ c ∷ (d ∷ t) ]

abbrev pub or_slash : String → String
or_slash [] = "/"
or_slash (c ∷ s) = c ∷ s

-- filepath.Base
unfoldable pub base : String → String
unfolding strip_slashes after_slash
base [] = "."
base (c ∷ s) = or_slash (file_of (strip_slashes (c ∷ s)))
