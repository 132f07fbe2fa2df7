-- ===== src/Base/Text.antt =====
-- The text functions of Python's library that the program calls: `in`, `str.lower` and
-- `urllib.parse.quote`.
use Prim.Native.Nat.{ℕ, ◌+◌, ◌-◌, ◌/◌, ◌%◌}
use Prim.Native.Char.{Char, code}
use Prim.Native.String.{String, slice, ◌++◌}
use mathlib.Core.Bool.{Bool, true, false, ◌&&◌, ◌||◌}
use mathlib.Core.Option.{none, some}
use text.Mathlib.Text.{find?, ◌==◌}
use saltext_vmware.Base.Tests.{leb, ltb, eqb, if◌then◌else◌}

-- `marker in text`
unfoldable pub contains : String → String → Bool
contains marker text = elim (find? text marker) [ none ↦ false | some i ↦ true ]

-- `str.lower` on the ASCII letters and the Kelvin sign, the one other character that Python lowers
-- to an ASCII letter alone; other characters stay.
lower_char : Char → String
lower_char c =
    if leb 65 (code c) && leb (code c) 90
    then slice "abcdefghijklmnopqrstuvwxyz" (code c - 65) (code c - 64)
    else if eqb (code c) 0x212A
    then "k"
    else String.◌∷◌ c String.[]

unfoldable pub lower : String → String
unfolding lower_char
lower String.[] = ""
lower (String.◌∷◌ c s) = lower_char c ++ lower s

hex_digit : ℕ → String
hex_digit n = slice "0123456789ABCDEF" n (n + 1)

percent : ℕ → String
unfolding hex_digit
percent b = "%" ++ hex_digit (b / 16) ++ hex_digit (b % 16)

unreserved : ℕ → Bool
unreserved n =
    leb b'a' n && leb n b'z'
    || leb b'A' n && leb n b'Z'
    || leb b'0' n && leb n b'9'
    || eqb n b'_'
    || eqb n b'.'
    || eqb n b'-'
    || eqb n b'~'

quote_code : ℕ → String
unfolding percent
quote_code n =
    if ltb n 0x80
    then percent n
    else if ltb n 0x800
    then percent (0xC0 + n / 64) ++ percent (0x80 + n % 64)
    else if ltb n 0x10000
    then percent (0xE0 + n / 4096) ++ percent (0x80 + n / 64 % 64) ++ percent (0x80 + n % 64)
    else percent (0xF0 + n / 262144)
      ++ percent (0x80 + n / 4096 % 64)
      ++ percent (0x80 + n / 64 % 64)
      ++ percent (0x80 + n % 64)

-- `quote(text, safe="")`: every byte of the UTF-8 text but the unreserved characters is escaped.
unfoldable pub quote : String → String
unfolding unreserved quote_code
quote String.[] = ""
quote (String.◌∷◌ c s) =
    (if unreserved (code c) then String.◌∷◌ c String.[] else quote_code (code c)) ++ quote s

is_space : ℕ → Bool
is_space n = leb 9 n && leb n 13 || leb 28 n && leb n 32 || eqb n 0x85 || eqb n 0xA0

strip_start : String → String
unfolding is_space
strip_start String.[] = ""
strip_start (String.◌∷◌ c s) =
    let rest = strip_start s in if is_space (code c) then rest else String.◌∷◌ c s

strip_end : String → String
unfolding is_space
strip_end String.[] = ""
strip_end (String.◌∷◌ c s) =
    let rest = strip_end s in if is_space (code c) && rest == "" then "" else String.◌∷◌ c rest

-- `str.strip`, of the white space up to U+00A0
unfoldable pub strip : String → String
unfolding strip_start strip_end
strip s = strip_end (strip_start s)

-- The characters that `shlex.quote` leaves alone
shell_safe : ℕ → Bool
shell_safe n =
    leb b'a' n && leb n b'z'
    || leb b'@' n && leb n b'Z'
    || leb b'+' n && leb n b':'
    || eqb n b'%'
    || eqb n b'='
    || eqb n b'_'

all_safe : String → Bool
unfolding shell_safe
all_safe String.[] = true
all_safe (String.◌∷◌ c s) = shell_safe (code c) && all_safe s

escape_quotes : String → String
escape_quotes String.[] = ""
escape_quotes (String.◌∷◌ c s) =
    (if eqb (code c) 39 then "'\"'\"'" else String.◌∷◌ c String.[]) ++ escape_quotes s

-- `shlex.quote(text)`
unfoldable pub shell_quote : String → String
unfolding all_safe escape_quotes
shell_quote text =
    if text == "" then "''" else if all_safe text then text else "'" ++ escape_quotes text ++ "'"
