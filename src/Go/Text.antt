-- ===== src/Go/Text.antt =====
-- Packages strings and unicode, over the code points of a text.
use Prim.Native.Char.{Char, code}
use Prim.Native.String
use Prim.Native.String.{char_at}
use eks_ami_operator.Base.{
  ◌-◌, Bool, ◌&&◌, ◌||◌, String, leb, ◌==◌, str_eq, if◌then◌else◌, Option, none, some,
}

infixr 65 ◌<>◌
abbrev pub ◌<>◌ : String → String → String
s <> t = String.◌++◌ s t

-- unicode.IsSpace
abbrev pub is_space : Char → Bool
is_space c =
    (leb 0x9 (code c) && leb (code c) 0xd)
    || code c == 0x20
    || code c == 0x85
    || code c == 0xa0
    || code c == 0x1680
    || (leb 0x2000 (code c) && leb (code c) 0x200a)
    || code c == 0x2028
    || code c == 0x2029
    || code c == 0x202f
    || code c == 0x205f
    || code c == 0x3000

trim_left : String → String
trim_left String.[] = String.[]
trim_left (String.◌∷◌ c s) = let rest = trim_left s in if is_space c then rest else String.◌∷◌ c s

trim_right : String → String
trim_right String.[] = String.[]
trim_right (String.◌∷◌ c s) =
    let rest = trim_right s in if is_space c && str_eq rest "" then String.[] else String.◌∷◌ c rest

-- strings.TrimSpace
unfoldable pub trim_space : String → String
unfolding trim_left trim_right
trim_space s = trim_right (trim_left s)

-- What follows a prefix, if it is one.
strip_prefix : String → String → Option String
strip_prefix s String.[] = some s
strip_prefix String.[] (String.◌∷◌ d p) = none
strip_prefix (String.◌∷◌ c s) (String.◌∷◌ d p) = if code c == code d then strip_prefix s p else none

-- strings.TrimPrefix
unfoldable pub trim_prefix : String → String → String
unfolding strip_prefix
trim_prefix s p = elim (strip_prefix s p) [ none ↦ s | some rest ↦ rest ]

-- Upper case of the letters a to z, and of the two letters outside ASCII whose upper case is in
-- ASCII (U+0131 and U+017F). The sources compare the result with texts in ASCII only, and every
-- other letter has an upper case outside ASCII.
abbrev to_upper_char : Char → Char
to_upper_char c =
    if leb b'a' (code c) && leb (code c) b'z'
    then char_at "ABCDEFGHIJKLMNOPQRSTUVWXYZ" (code c - b'a')
    else if code c == 0x131
    then char_at "I" 0
    else if code c == 0x17f
    then char_at "S" 0
    else c

-- strings.ToUpper
unfoldable pub to_upper : String → String
to_upper String.[] = String.[]
to_upper (String.◌∷◌ c s) = String.◌∷◌ (to_upper_char c) (to_upper s)
