-- ===== src/Models/Text.antt =====
-- What the source uses of `str`: search, split, trim and lower case. Letters and blanks outside
-- ASCII stay as they are.
use Prim.Native.Char.{Char, code}
use Prim.Native.String.{slice, len, char_at}
use text.Mathlib.Text.{find?}
use mathlib.Core.Option
use trading_gateway.Base.{
  zero, suc, ◌/◌, ◌%◌, ◌⧺◌, ◌%◌, ◌⧺◌, ltb, ◌/◌, suc, ℕ, ◌+◌, ◌-◌, String, Bool, ◌&&◌, ◌||◌, Option,
  none, some, leb, is_some, if◌then◌else◌,
}

lower_char : Char → Char
lower_char c =
    if leb b'A' (code c) && leb (code c) b'Z'
    then char_at "abcdefghijklmnopqrstuvwxyz" (code c - b'A')
    else c

-- `str::to_lowercase`
unfoldable pub to_lowercase : String → String
unfolding lower_char
to_lowercase String.[] = String.[]
to_lowercase (String.◌∷◌ c s) = String.◌∷◌ (lower_char c) (to_lowercase s)

-- `str::contains`
unfoldable pub contains : String → String → Bool
contains s t = is_some (find? s t)

is_blank : Char → Bool
is_blank c = (leb 9 (code c) && leb (code c) 13) || (leb 32 (code c) && leb (code c) 32)

trim_start : String → String
unfolding is_blank
trim_start String.[] = String.[]
trim_start (String.◌∷◌ c s) = if is_blank c then trim_start s else String.◌∷◌ c s

abbrev drop_blank : Char → String → String
drop_blank c String.[] = if is_blank c then String.[] else String.◌∷◌ c String.[]
drop_blank c (String.◌∷◌ d s) = String.◌∷◌ c (String.◌∷◌ d s)

trim_end : String → String
unfolding is_blank
trim_end String.[] = String.[]
trim_end (String.◌∷◌ c s) = drop_blank c (trim_end s)

-- `str::trim`
unfoldable pub trim : String → String
unfolding trim_start trim_end
trim s = trim_end (trim_start s)

-- The part of `s` behind the first `t`, if there is one.
unfoldable pub behind : String → String → Option String
behind s t = Option.map (λ i. slice s (i + len t) (len s)) (find? s t)

-- The part of `s` before the first `t`, or all of it.
unfoldable pub before : String → String → String
before s t = elim (find? s t) [ none ↦ s | some i ↦ slice s 0 i ]

digit : ℕ → String
digit d = String.◌∷◌ (char_at "0123456789" d) String.[]

show_digits : ℕ → ℕ → String
unfolding digit
show_digits zero n = ""
show_digits (suc f) n =
    let front = show_digits f (n / 10) in if ltb n 10 then digit n else front ⧺ digit (n % 10)

-- `Display` of an unsigned integer: the fuel is above the number of digits.
unfoldable pub show_nat : ℕ → String
unfolding show_digits
show_nat n = show_digits (suc n) n
