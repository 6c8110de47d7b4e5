-- ===== src/Common/Text.antt =====
-- Texts: the standard library's functions on `str` that the program calls, over characters.
pub mod Decimal
pub mod Parts
use Prim.Native.Nat.{ℕ, zero, suc, ◌+◌, ◌-◌, ◌*◌, ◌/◌, ◌%◌, ◌≤◌}
use Prim.Native.Char.{Char, code}
use Prim.Native.String.{String, [], ◌∷◌, ◌++◌}
use mathlib.Core.Bool.{Bool, true, false, ◌&&◌, ◌||◌}
use mathlib.Core.Option.{Option, none, some}
use mathlib.Core.List
use mathlib.Core.List.{List}
use responses_api_store.Common.Tests.{ltb, leb, eqb, is_some, if◌then◌else◌}

abbrev pub is_blank : String → Bool
is_blank [] = true
is_blank (c ∷ s) = false

abbrev pub push_first : Char → List String → List String
push_first c List.[] = List.◌∷◌ (c ∷ []) List.[]
push_first c (List.◌∷◌ p ps) = List.◌∷◌ (c ∷ p) ps

-- `str::split` by one character, given by its code
unfoldable pub split : ℕ → String → List String
split sep [] = List.◌∷◌ [] List.[]
split sep (c ∷ s) =
    let rest = split sep s in if eqb (code c) sep then List.◌∷◌ [] rest else push_first c rest

abbrev pub push_left : Char → Option (String × String) → Option (String × String)
push_left c none = none
push_left c (some (a, b)) = some (c ∷ a, b)

-- `str::split_once` by one character
unfoldable pub split_once : ℕ → String → Option (String × String)
split_once sep [] = none
split_once sep (c ∷ s) =
    let rest = push_left c (split_once sep s) in if eqb (code c) sep then some ([], s) else rest

abbrev pub is_digit : ℕ → Bool
is_digit c = leb b'0' c && leb c b'9'

unfoldable pub digits : ℕ → String → Option ℕ
digits acc [] = some acc
digits acc (c ∷ s) =
    let rest = digits (acc * 10 + (code c - b'0')) s in if is_digit (code c) then rest else none

abbrev pub at_most : ℕ → Option ℕ → Option ℕ
at_most max none = none
at_most max (some n) = if leb n max then some n else none

-- one sign `+` may stand before the digits
abbrev pub unsigned : String → Option ℕ
unsigned [] = none
unsigned (c ∷ []) = digits 0 (c ∷ [])
unsigned (c ∷ (d ∷ s)) = if eqb (code c) b'+' then digits 0 (d ∷ s) else digits 0 (c ∷ (d ∷ s))

-- `str::parse` into an unsigned integer type with the greatest value `max`. A digit that overflows
-- ends in an error, as does one text after it that is no digit, so one test at the end is enough.
unfoldable pub parse_uint : ℕ → String → Option ℕ
unfolding digits
parse_uint max s = at_most max (unsigned s)

abbrev pub digit : ℕ → Char
digit zero = "0"
digit (suc zero) = "1"
digit (suc (suc zero)) = "2"
digit (suc (suc (suc zero))) = "3"
digit (suc (suc (suc (suc zero)))) = "4"
digit (suc (suc (suc (suc (suc zero))))) = "5"
digit (suc (suc (suc (suc (suc (suc zero)))))) = "6"
digit (suc (suc (suc (suc (suc (suc (suc zero))))))) = "7"
digit (suc (suc (suc (suc (suc (suc (suc (suc zero)))))))) = "8"
digit _ = "9"

-- The digits of `n` in front of a text.
unfoldable pub decimal : ℕ → ℕ → String → String
decimal zero n s = s
decimal (suc f) n s =
    let more = decimal f (n / 10) (digit (n % 10) ∷ s) in if ltb n 10 then digit n ∷ s else more

-- `{n}` in a `format!`: a `u64` has at most 20 digits.
unfoldable pub show : ℕ → String
unfolding decimal
show n = decimal 20 n []

-- the ASCII part of `char::is_whitespace`, and the rest of it
abbrev pub is_whitespace : ℕ → Bool
is_whitespace c =
    leb 9 c && leb c 13
    || (eqb c 32
        || (eqb c 133
            || (eqb c 160
                || (eqb c 5760
                    || (leb 8192 c && leb c 8202
                        || (eqb c 8232
                            || (eqb c 8233 || (eqb c 8239 || (eqb c 8287 || eqb c 12288)))))))))

unfoldable pub trim_start : String → String
trim_start [] = []
trim_start (c ∷ s) = let rest = trim_start s in if is_whitespace (code c) then rest else c ∷ s

abbrev pub trim_before : Char → String → String
trim_before c [] = if is_whitespace (code c) then [] else c ∷ []
trim_before c (d ∷ s) = c ∷ (d ∷ s)

unfoldable pub trim_end : String → String
trim_end [] = []
trim_end (c ∷ s) = trim_before c (trim_end s)

-- `str::trim`
abbrev pub trim : String → String
trim s = trim_start (trim_end s)

-- `str::strip_prefix`
unfoldable pub strip_prefix : String → String → Option String
strip_prefix [] s = some s
strip_prefix (p ∷ ps) [] = none
strip_prefix (p ∷ ps) (c ∷ s) =
    let rest = strip_prefix ps s in if eqb (code p) (code c) then rest else none

-- a line without a carriage return at its end
unfoldable pub strip_return : String → String
strip_return [] = []
strip_return (c ∷ s) =
    let rest = c ∷ strip_return s in if is_blank s && eqb (code c) 13 then [] else rest

-- The pieces between line feeds; each but the last ended with one, and the last is left out if empty.
abbrev pub ended_lines : List String → List String
ended_lines List.[] = List.[]
ended_lines (List.◌∷◌ s List.[]) = if is_blank s then List.[] else List.◌∷◌ s List.[]
ended_lines (List.◌∷◌ s (List.◌∷◌ t ts)) = List.◌∷◌ (strip_return s) (ended_lines (List.◌∷◌ t ts))

-- `str::lines`
abbrev pub lines : String → List String
lines s = ended_lines (split 10 s)

abbrev pub chars : String → ℕ
chars [] = 0
chars (c ∷ s) = suc (chars s)

-- `str::replace` of a text that is not empty, from the left; the first `skip` characters belong to
-- the last match.
unfoldable pub replace_text : String → String → ℕ → String → String
unfolding strip_prefix
replace_text from to skip [] = []
replace_text from to (suc skip) (c ∷ s) = replace_text from to skip s
replace_text from to zero (c ∷ s) =
    let matched = to ++ replace_text from to (chars from - 1) s in
    let rest = c ∷ replace_text from to zero s in
    if is_some (strip_prefix from (c ∷ s)) then matched else rest
