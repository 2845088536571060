-- ===== src/Domain/Numbers.antt =====
-- server/dukan/domain/numbers.py, and `format_quantity` and `quantity_to_minor` of
-- server/dukan/domain/catalog.py: amounts and quantities as people type them. A text is the list of
-- its code points.
pub mod Digits
pub mod RoundTrip
use dukan_pro.Prelude.{
  ℕ, zero, suc, ◌+◌, ◌-◌, ◌*◌, ◌/◌, ◌%◌, ◌^◌, String, Bool, true, false, not, ◌&&◌, ◌||◌, Option,
  none, some, List, [], ◌∷◌, ◌++◌, map, ltb, leb, ◌==◌, length, replicate, all, if◌then◌else◌,
}
use dukan_pro.Prelude.Int.{ℤ, pos, negsuc, negate}
use dukan_pro.Prelude.Text.{codes}
use dukan_pro.Errors.{Result, ok, err, validation, Code}
use dukan_pro.Domain.Limits.{money_max_ℕ}

pub data NumberProblem : Type 0 where
  not_a_number too_precise too_large : NumberProblem

-- What `parse_scaled` returns: one of the two is `None`.
pub data Parsed : Type 0 where
  value : ℤ → Parsed
  problem : NumberProblem → Parsed

unfoldable pub is_digit : ℕ → Bool
is_digit c = leb b'0' c && leb c b'9'

-- `_ASCII.get(ch, ch)`
unfoldable pub to_ascii : ℕ → ℕ
to_ascii c =
    if leb 0x6f0 c && leb c 0x6f9
    then c - 0x6f0 + b'0'
    else if leb 0x660 c && leb c 0x669
    then c - 0x660 + b'0'
    else if c == 0x66b
    then b'.'
    else if c == 0x66c
    then b','
    else if c == 0x2212
    then b'-'
    else c

-- `ch in _SPACE`
unfoldable pub is_trimmed : ℕ → Bool
is_trimmed c =
    (leb 9 c && leb c 13)
    || (leb 0x1c c && leb c 0x20)
    || (c == 0x85)
    || (c == 0xa0)
    || (c == 0x1680)
    || (leb 0x2000 c && leb c 0x200a)
    || (leb 0x2028 c && leb c 0x2029)
    || (c == 0x202f)
    || (c == 0x205f)
    || (c == 0x3000)
    || (c == 0xfeff)

unfoldable pub strip_start : (ℕ → Bool) → List ℕ → List ℕ
strip_start p [] = []
strip_start p (c ∷ s) = if p c then strip_start p s else c ∷ s

abbrev keep_end : Bool → ℕ → List ℕ → List ℕ
keep_end true c [] = []
keep_end true c (d ∷ s) = c ∷ d ∷ s
keep_end false c s = c ∷ s

unfoldable pub strip_end : (ℕ → Bool) → List ℕ → List ℕ
strip_end p [] = []
strip_end p (c ∷ s) = keep_end (p c) c (strip_end p s)

unfoldable pub normalize_digits : List ℕ → List ℕ
normalize_digits text = map to_ascii (strip_end is_trimmed (strip_start is_trimmed text))

-- `(?:,[0-9]{3})+`
unfoldable pub is_groups : List ℕ → Bool
is_groups (c ∷ x ∷ y ∷ z ∷ []) = (c == b',') && is_digit x && is_digit y && is_digit z
is_groups (c ∷ x ∷ y ∷ z ∷ rest) =
    (c == b',') && is_digit x && is_digit y && is_digit z && is_groups rest
is_groups _ = false

-- `[0-9]{1,3}(?:,[0-9]{3})+`
unfoldable pub is_grouped : List ℕ → Bool
unfolding is_groups
is_grouped (x ∷ y ∷ z ∷ rest) =
    is_digit x
    && (is_groups (y ∷ z ∷ rest)
        || (is_digit y && (is_groups (z ∷ rest) || (is_digit z && is_groups rest))))
is_grouped _ = false

unfoldable pub without_commas : List ℕ → List ℕ
without_commas [] = []
without_commas (c ∷ s) = let rest = without_commas s in if c == b',' then rest else c ∷ rest

-- The first group, `(-)?`, and what follows it.
unfoldable pub take_sign : List ℕ → Bool × List ℕ
take_sign [] = (false, [])
take_sign (c ∷ s) = if c == b'-' then (true, s) else (false, c ∷ s)

-- The text before the first "." and, if there is one, the text behind it.
unfoldable pub split_point : List ℕ → List ℕ × Option (List ℕ)
split_point [] = ([], none)
split_point (c ∷ s) =
    let (before, behind) = split_point s in if c == b'.' then ([], some s) else (c ∷ before, behind)

-- The second group with its commas taken out, empty where the group is absent.
unfoldable pub match_whole : List ℕ → Option (List ℕ)
match_whole s =
    if all is_digit s then some s else if is_grouped s then some (without_commas s) else none

-- The third group, `(?:\.([0-9]+))?`, empty where it is absent.
unfoldable pub match_frac : Option (List ℕ) → Option (List ℕ)
match_frac none = some []
match_frac (some []) = none
match_frac (some (c ∷ s)) = if all is_digit (c ∷ s) then some (c ∷ s) else none

-- `int(text)` of a text of digits, behind a number that was read already.
unfoldable pub int_from : ℕ → List ℕ → ℕ
int_from n [] = n
int_from n (c ∷ s) = int_from (n * 10 + (c - b'0')) s

-- The cases behind a match; `int("")` stands for `int("0" + …)` where `whole` is empty.
unfoldable pub scaled : Bool → List ℕ → List ℕ → ℕ → Parsed
scaled negative [] [] decimal_places = problem not_a_number
scaled negative whole frac decimal_places =
    let digits = whole ++ frac ++ replicate (decimal_places - length frac) b'0' in
    let magnitude = int_from 0 digits in
    if ltb decimal_places (length frac)
    then problem too_precise
    else if ltb money_max_ℕ magnitude
    then problem too_large
    else value (if negative then negate (pos magnitude) else pos magnitude)

unfoldable pub parse_groups : Bool → Option (List ℕ) → Option (List ℕ) → ℕ → Parsed
parse_groups negative (some whole) (some frac) decimal_places =
    scaled negative whole frac decimal_places
parse_groups negative _ _ decimal_places = problem not_a_number

unfoldable pub parse_scaled : List ℕ → ℕ → Parsed
parse_scaled text decimal_places =
    let (negative, unsigned) = take_sign (normalize_digits text) in
    let (before, behind) = split_point unsigned in
    parse_groups negative (match_whole before) (match_frac behind) decimal_places

unfoldable pub money_to_minor : List ℕ → ℕ → Result ℤ
money_to_minor text decimal_places = elim (parse_scaled text decimal_places) [
  | value v ↦ ok v
  | problem _ ↦ err (validation Code.money_amount_invalid)
]

-- `str(n)` of a number that is not negative, on fuel: each round takes off a digit.
unfoldable pub decimal_on : ℕ → ℕ → List ℕ → List ℕ
decimal_on zero n acc = acc
decimal_on (suc fuel) n acc =
    let rest = decimal_on fuel (n / 10) ((b'0' + n % 10) ∷ acc) in
    if ltb n 10 then (b'0' + n) ∷ acc else rest

unfoldable pub decimal : ℕ → List ℕ
unfolding decimal_on
decimal n = decimal_on (suc n) n []

-- `text.rjust(width, "0")`
unfoldable pub rjust_zeros : List ℕ → ℕ → List ℕ
rjust_zeros text width = replicate (width - length text) b'0' ++ text

abbrev pub minus_if : Bool → List ℕ → List ℕ
minus_if negative text = if negative then b'-' ∷ text else text

unfoldable pub format_magnitude : Bool → ℕ → ℕ → List ℕ
format_magnitude negative magnitude zero = minus_if negative (decimal magnitude)
format_magnitude negative magnitude (suc p) = minus_if negative (
    decimal (magnitude / 10 ^ suc p)
    ++ (b'.' ∷ rjust_zeros (decimal (magnitude % 10 ^ suc p)) (suc p)))

unfoldable pub format_quantity : ℤ → ℕ → List ℕ
format_quantity (pos n) decimal_places = format_magnitude false n decimal_places
format_quantity (negsuc n) decimal_places = format_magnitude true (suc n) decimal_places
