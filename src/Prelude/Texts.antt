-- ===== src/Prelude/Texts.antt =====
-- Texts walked character by character: order, prefixes, decimal digits.
use Prim.Native.Nat.{ℕ, zero, suc, ◌+◌, ◌-◌, ◌*◌, ◌/◌, ◌%◌}
use Prim.Native.Char.{Char, code}
use Prim.Native.String.{String, [], ◌∷◌, ◌++◌}
use mathlib.Core.Path.{◌≡◌, refl}
use mathlib.Core.Bool.{Bool, true, false, ◌&&◌, ◌||◌}
use mathlib.Core.Option.{Option, none, some}
use marketplace_template.Prelude.Tests.{ltb, leb, nat_beq, if◌then◌else◌}

-- `a < b` on strings, character by character.
unfoldable pub text_ltb : String → String → Bool
text_ltb s [] = false
text_ltb [] (d ∷ t) = true
text_ltb (c ∷ s) (d ∷ t) =
    if ltb (code c) (code d) then true else if ltb (code d) (code c) then false else text_ltb s t

abbrev pub is_digit : Char → Bool
is_digit c = leb b'0' (code c) && leb (code c) b'9'

-- `/^\d*$/`
unfoldable pub all_digits : String → Bool
all_digits [] = true
all_digits (c ∷ s) = is_digit c && all_digits s

-- The rest of a text behind a prefix, as a regular expression `/^prefix(.*)$/` finds it.
unfoldable pub strip_prefix : String → String → Option String
strip_prefix [] s = some s
strip_prefix (c ∷ p) [] = none
strip_prefix (c ∷ p) (d ∷ s) = if nat_beq (code c) (code d) then strip_prefix p s else none

-- `length` counts UTF-16 units.
unfoldable pub text_length : String → ℕ
text_length [] = 0
text_length (c ∷ s) = (if ltb 65535 (code c) then 2 else 1) + text_length s

-- Letters compare without case, as under the flag `i`.
abbrev pub folded : ℕ → ℕ
folded c = if leb 65 c && leb c 90 then c + 32 else c

unfoldable pub starts_folded : String → String → Bool
starts_folded [] s = true
starts_folded (c ∷ p) [] = false
starts_folded (c ∷ p) (d ∷ s) = nat_beq (folded (code c)) (folded (code d)) && starts_folded p s

unfoldable pub contains_folded : String → String → Bool
contains_folded p [] = starts_folded p []
contains_folded p (c ∷ s) = starts_folded p (c ∷ s) || contains_folded p s

infixr 65 ◌<>◌
abbrev pub ◌<>◌ : String → String → String
s <> t = s ++ t

unfoldable pub digit_text : ℕ → String
digit_text d =
    if nat_beq d 0
    then "0"
    else if nat_beq d 1
    then "1"
    else if nat_beq d 2
    then "2"
    else if nat_beq d 3
    then "3"
    else if nat_beq d 4
    then "4"
    else if nat_beq d 5
    then "5"
    else if nat_beq d 6
    then "6"
    else if nat_beq d 7
    then "7"
    else if nat_beq d 8
    then "8"
    else "9"

-- `fuel` digits at most.
unfoldable pub show_digits : ℕ → ℕ → String
unfolding digit_text
show_digits zero n = ""
show_digits (suc fuel) n =
    let front = show_digits fuel (n / 10) in
    if ltb n 10 then digit_text n else front <> digit_text (n % 10)

-- `String(n)`: a number has no more digits than its value plus one.
unfoldable pub show_nat : ℕ → String
unfolding show_digits
show_nat n = show_digits (suc n) n

show_nat_example : show_nat 1207 ≡ "1207"
unfolding show_nat
show_nat_example = refl

-- `Number(s)` of decimal digits, from those read so far.
unfoldable pub decimal_from : ℕ → String → ℕ
decimal_from acc [] = acc
decimal_from acc (c ∷ s) = decimal_from (acc * 10 + (code c - b'0')) s

unfoldable pub decimal : String → ℕ
unfolding decimal_from
decimal s = decimal_from 0 s

unfoldable pub starts_zero : String → Bool
starts_zero [] = false
starts_zero (c ∷ s) = nat_beq (code c) b'0'
