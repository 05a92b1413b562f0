-- ===== src/Bootstrap/Hostname.antt =====
-- SocketAddress._validateHostname (bootstrap.pb.validate.go), on texts of characters.
use Prim.Native.Char.{code}
use Prim.Native.String.{String}
use xds_relay.Prelude.{
  ℕ, ◌+◌, Bool, true, false, ◌||◌, ◌&&◌, Option, none, some, List, ltb, leb, ◌==◌, if◌then◌else◌,
}
use xds_relay.Admin.Texts.{before_suffix, trim_suffix}

-- The length of a character in UTF-8.
abbrev pub char_length : ℕ → ℕ
char_length n = if ltb n 128 then 1 else if ltb n 2048 then 2 else if ltb n 65536 then 3 else 4

-- Go's `len` of a text.
unfoldable pub byte_length : String → ℕ
byte_length String.[] = 0
byte_length (String.◌∷◌ c s) = char_length (code c) + byte_length s

-- unicode.ToLower, as far as a result among the lower-case letters, the digits and the hyphen goes: the
-- upper-case letters, and the two others that have such a result. The rest is left as it is.
abbrev pub to_lower : ℕ → ℕ
to_lower n =
    if leb 65 n && leb n 90 then n + 32 else if n == 304 then 105 else if n == 8490 then 107 else n

-- strings.ToLower, as the codes of the characters.
unfoldable pub lower_codes : String → List ℕ
lower_codes String.[] = List.[]
lower_codes (String.◌∷◌ c s) = List.◌∷◌ (to_lower (code c)) (lower_codes s)

-- The first part gets one more character.
abbrev pub extend_first : ℕ → List (List ℕ) → List (List ℕ)
extend_first n List.[] = List.◌∷◌ (List.◌∷◌ n List.[]) List.[]
extend_first n (List.◌∷◌ part parts) = List.◌∷◌ (List.◌∷◌ n part) parts

-- strings.Split at the dots: a text without a dot is one part, also if it is empty.
unfoldable pub split_dots : List ℕ → List (List ℕ)
split_dots List.[] = List.◌∷◌ List.[] List.[]
split_dots (List.◌∷◌ n s) =
    let rest = split_dots s in if n == 46 then List.◌∷◌ List.[] rest else extend_first n rest

unfoldable pub part_length : List ℕ → ℕ
part_length List.[] = 0
part_length (List.◌∷◌ n part) = char_length n + part_length part

-- The last byte of a part is the hyphen exactly if its last character is.
unfoldable pub ends_with_hyphen : List ℕ → Bool
ends_with_hyphen List.[] = false
ends_with_hyphen (List.◌∷◌ n List.[]) = n == 45
ends_with_hyphen (List.◌∷◌ n (List.◌∷◌ m part)) = ends_with_hyphen (List.◌∷◌ m part)

abbrev pub begins_with_hyphen : List ℕ → Bool
begins_with_hyphen List.[] = false
begins_with_hyphen (List.◌∷◌ n part) = n == 45

abbrev pub is_allowed : ℕ → Bool
is_allowed n = ((leb 97 n && leb n 122) || (leb 48 n && leb n 57)) || (n == 45)

unfoldable pub all_allowed : List ℕ → Bool
all_allowed List.[] = true
all_allowed (List.◌∷◌ n part) = is_allowed n && all_allowed part

-- The errors.
pub data HostnameError : Type 0 where
  too_long : HostnameError
  part_size : HostnameError
  hyphen_first : HostnameError
  hyphen_last : HostnameError
  not_alphanumeric : HostnameError

unfoldable pub check_part : List ℕ → Option HostnameError
unfolding part_length ends_with_hyphen all_allowed
check_part part =
    if (part_length part == 0) || ltb 63 (part_length part)
    then some part_size
    else if begins_with_hyphen part
    then some hyphen_first
    else if ends_with_hyphen part
    then some hyphen_last
    else if all_allowed part
    then none
    else some not_alphanumeric

abbrev pub or_rest : Option HostnameError → Option HostnameError → Option HostnameError
or_rest none rest = rest
or_rest (some e) rest = some e

unfoldable pub check_parts : List (List ℕ) → Option HostnameError
unfolding check_part
check_parts List.[] = none
check_parts (List.◌∷◌ part parts) = or_rest (check_part part) (check_parts parts)

unfoldable pub validate_hostname : String → Option HostnameError
unfolding byte_length before_suffix lower_codes split_dots check_parts
validate_hostname host =
    if ltb 253 (byte_length host)
    then some too_long
    else check_parts (split_dots (lower_codes (trim_suffix host ".")))
