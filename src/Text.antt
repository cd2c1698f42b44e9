-- ===== src/Text.antt =====
-- The operations on Python's `str` and on text files that the program uses. A text is the list of its
-- code points.
pub mod Lines
use Prim.Native.Char.{code}
use Prim.Native.String.{String}
use iis_meds.Prelude.{
  ℕ, zero, suc, ◌+◌, ◌-◌, ◌*◌, ◌/◌, ◌%◌, List, [], ◌∷◌, ltb, leb, ◌==◌, ◌&&◌, ◌||◌, Bool, true,
  false, if◌then◌else◌, Option, none, some, Result, ok, raised, index_error, value_error, ◌>>=◌,
}

-- A literal text
abbrev pub codes : String → List ℕ
codes String.[] = []
codes (String.◌∷◌ c s) = code c ∷ codes s

-- `text.startswith(prefix)`
abbrev pub starts_with : List ℕ → List ℕ → Bool
starts_with text [] = true
starts_with [] (p ∷ prefix) = false
starts_with (c ∷ text) (p ∷ prefix) = c == p && starts_with text prefix

-- `text.find(part) != -1`
abbrev pub contains : List ℕ → List ℕ → Bool
contains [] part = starts_with [] part
contains (c ∷ text) part = starts_with (c ∷ text) part || contains text part

-- White space, of the first 256 code points
abbrev pub is_space : ℕ → Bool
is_space c = (leb 9 c && leb c 13) || (leb 28 c && leb c 32) || c == 133 || c == 160

abbrev pub strip_left : List ℕ → List ℕ
strip_left [] = []
strip_left (c ∷ text) = let rest = strip_left text in if is_space c then rest else c ∷ text

-- Without the white space at the end
abbrev pub strip_right : List ℕ → List ℕ
strip_right [] = []
strip_right (c ∷ text) = elim (strip_right text) [
  | [] ↦ if is_space c then [] else c ∷ []
  | d ∷ rest ↦ c ∷ d ∷ rest
]

abbrev pub strip : List ℕ → List ℕ
strip text = strip_right (strip_left text)

-- The text before the first separator
abbrev pub before : ℕ → List ℕ → List ℕ
before sep [] = []
before sep (c ∷ text) = let rest = before sep text in if c == sep then [] else c ∷ rest

-- `text.split(sep)[1]`, an IndexError where there is no separator
abbrev pub second_piece : ℕ → List ℕ → Result (List ℕ)
second_piece sep [] = raised index_error
second_piece sep (c ∷ text) =
    let later = second_piece sep text in if c == sep then ok (before sep text) else later

-- The value of a hexadecimal digit
abbrev pub hex_digit : ℕ → Option ℕ
hex_digit c =
    if leb 48 c && leb c 57
    then some (c - 48)
    else if leb 65 c && leb c 70
    then some (c - 55)
    else if leb 97 c && leb c 102
    then some (c - 87)
    else none

abbrev pub hex_pair : Option ℕ → Option ℕ → Result (List ℕ) → Result (List ℕ)
hex_pair (some a) (some b) rest = do bytes ← rest; ok ((a * 16 + b) ∷ bytes)
hex_pair a b rest = raised value_error

-- `bytes.fromhex(text)`; white space between two bytes is skipped.
abbrev pub from_hex : List ℕ → Result (List ℕ)
from_hex [] = ok []
from_hex (c ∷ []) = if (leb 9 c && leb c 13) || c == 32 then ok [] else raised value_error
from_hex (c ∷ d ∷ text) =
    let skipped = from_hex (d ∷ text) in
    let rest = from_hex text in
    if (leb 9 c && leb c 13) || c == 32 then skipped else hex_pair (hex_digit c) (hex_digit d) rest

-- `for line in FILE`: the lines of a text, each with its newline
abbrev pub prepend : ℕ → List (List ℕ) → List (List ℕ)
prepend c [] = (c ∷ []) ∷ []
prepend c (line ∷ lines) = (c ∷ line) ∷ lines

abbrev pub lines_of : List ℕ → List (List ℕ)
lines_of [] = []
lines_of (c ∷ text) =
    let rest = lines_of text in if c == 10 then (c ∷ []) ∷ rest else prepend c rest

-- The decimal digits of a number; a number has no more digits than itself and one.
abbrev pub decimal_from : ℕ → ℕ → List ℕ → List ℕ
decimal_from zero n digits = digits
decimal_from (suc fuel) n digits =
    let rest = decimal_from fuel (n / 10) ((48 + n % 10) ∷ digits) in
    if ltb n 10 then (48 + n) ∷ digits else rest

abbrev pub decimal : ℕ → List ℕ
decimal n = decimal_from (suc n) n []

abbrev pub same_text : List ℕ → List ℕ → Bool
same_text [] [] = true
same_text (x ∷ xs) (y ∷ ys) = x == y && same_text xs ys
same_text xs ys = false
