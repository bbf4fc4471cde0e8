-- ===== src/Base/Text.antt =====
-- Python's `str.strip`, `str.upper`, `str.lower` and `int(s.split(":")[0])` over ASCII, `or` and `in`
-- on texts.
use Prim.Native.Nat.{ℕ, zero, suc, ◌+◌, ◌-◌, ◌*◌, ◌/◌, ◌%◌}
use Prim.Native.String.{◌++◌ as ◌+++◌}
use Prim.Native.Char.{Char, code}
use Prim.Native.String.{String}
use mathlib.Core.Bool.{Bool, true, false, ◌&&◌, ◌||◌}
use mathlib.Core.Option.{Option, none, some}
use mathlib.Core.Path.{◌≡◌, refl}
use text.Mathlib.Text.{find?, ◌==◌}
use meal_key_ecosystem.Base.Tests.{leb, ltb, eq_nat, is_some, if◌then◌else◌}

is_space : ℕ → Bool
is_space c = eq_nat c 32 || (leb 9 c && leb c 13) || (leb 28 c && leb c 31)

strip_left : String → String
unfolding is_space
strip_left String.[] = ""
strip_left (String.◌∷◌ c s) =
    let rest = strip_left s in if is_space (code c) then rest else String.◌∷◌ c s

strip_right : String → String
unfolding is_space
strip_right String.[] = ""
strip_right (String.◌∷◌ c s) =
    let rest = strip_right s in if rest == "" && is_space (code c) then "" else String.◌∷◌ c rest

unfoldable pub strip : String → String
unfolding strip_left strip_right
strip s = strip_right (strip_left s)

-- the character of `to` at the place where `from` has `c`
translate : Char → String → String → Char
translate c String.[] to = c
translate c (String.◌∷◌ a from) String.[] = c
translate c (String.◌∷◌ a from) (String.◌∷◌ b to) =
    let rest = translate c from to in if eq_nat (code a) (code c) then b else rest

map_chars : (Char → Char) → String → String
map_chars f String.[] = ""
map_chars f (String.◌∷◌ c s) = String.◌∷◌ (f c) (map_chars f s)

abbrev small_letters : String
small_letters = "abcdefghijklmnopqrstuvwxyz"

abbrev capital_letters : String
capital_letters = "ABCDEFGHIJKLMNOPQRSTUVWXYZ"

unfoldable pub lower : String → String
unfolding map_chars translate
lower = map_chars (λ c. translate c capital_letters small_letters)

unfoldable pub upper : String → String
unfolding map_chars translate
upper = map_chars (λ c. translate c small_letters capital_letters)

-- the value of a run of digits, up to the first `:`; `none` is a `ValueError`
digits_before_colon : ℕ → String → Option ℕ
digits_before_colon n String.[] = some n
digits_before_colon n (String.◌∷◌ c s) =
    let d = code c in
    let rest = digits_before_colon (n * 10 + (d - 48)) s in
    if eq_nat d b':' then some n else if leb 48 d && leb d 57 then rest else none

-- `int(text.split(":")[0])`
unfoldable pub hour_of : String → Option ℕ
unfolding digits_before_colon
hour_of String.[] = none
hour_of (String.◌∷◌ c s) =
    if eq_nat (code c) b':' then none else digits_before_colon 0 (String.◌∷◌ c s)

-- `s or t`
abbrev pub or_text : String → String → String
or_text s t = if s == "" then t else s

-- `hint in text`
unfoldable pub contains : String → String → Bool
contains text hint = is_some (find? text hint)

-- `text.startswith(prefix)`
unfoldable pub starts_with : String → String → Bool
starts_with String.[] text = true
starts_with (String.◌∷◌ a prefix) String.[] = false
starts_with (String.◌∷◌ a prefix) (String.◌∷◌ b text) =
    let rest = starts_with prefix text in eq_nat (code a) (code b) && rest

-- the text without as many characters as the prefix has
unfoldable pub drop_prefix : String → String → String
drop_prefix String.[] text = text
drop_prefix (String.◌∷◌ a prefix) String.[] = ""
drop_prefix (String.◌∷◌ a prefix) (String.◌∷◌ b text) = drop_prefix prefix text

-- `text[:n]`
unfoldable pub cut : ℕ → String → String
cut zero text = ""
cut (suc n) String.[] = ""
cut (suc n) (String.◌∷◌ c text) = String.◌∷◌ c (cut n text)

-- the character of a text at a place, as a text
letter : ℕ → String → String
letter n String.[] = ""
letter zero (String.◌∷◌ c text) = String.◌∷◌ c ""
letter (suc n) (String.◌∷◌ c text) = letter n text

digits : ℕ → ℕ → String
unfolding letter
digits zero n = ""
digits (suc fuel) n =
    let rest = digits fuel (n / 10) in
    let last = letter (n % 10) "0123456789" in if ltb n 10 then last else rest +++ last

-- `str(n)`
pub decimal : ℕ → String
unfolding digits
decimal n = digits (suc n) n

decimal_test : decimal 120 ≡ "120"
unfolding decimal digits letter
decimal_test = refl

strip_test : strip "  now " ≡ "now"
unfolding strip
strip_test = refl

lower_test : lower "HTTP oauth" ≡ "http oauth"
unfolding lower
lower_test = refl

hour_of_test : hour_of "22:30" ≡ some 22
unfolding hour_of
hour_of_test = refl

contains_test : contains "午餐售罄提醒" "售罄" ≡ true
unfolding contains
contains_test = refl
