-- ===== src/Go/Strings.antt =====
-- `strings` and `strconv` on bytes: trimming, splitting, and numbers. White space is that of ASCII.
pub mod Clean
pub mod Last
use kaa_s_demo.Prelude.{
  ℕ, zero, suc, ◌+◌, ◌-◌, ◌*◌, ◌<◌, ◌≤◌, Bool, true, false, ◌&&◌, ◌||◌, Option, none, some, List,
  [], ◌∷◌, ◌++◌, Text, leb, ltb, ◌==◌, if◌then◌else◌,
}
use kaa_s_demo.Prelude.Int.{ℤ, pos, negsuc, sub_ℕ}

unfoldable pub is_space : ℕ → Bool
is_space c = c == 32 || (leb 9 c && leb c 13)

trim_left : Text → Text
unfolding is_space
trim_left [] = []
trim_left (c ∷ cs) = let rest = trim_left cs in if is_space c then rest else c ∷ cs

-- a character before a text whose trailing spaces are gone
keep : ℕ → Text → Text
unfolding is_space
keep c [] = if is_space c then [] else c ∷ []
keep c (d ∷ ds) = c ∷ d ∷ ds

-- strings.TrimSpace: from the left, and from the right by dropping a tail of spaces
trim_right : Text → Text
unfolding keep
trim_right [] = []
trim_right (c ∷ cs) = keep c (trim_right cs)

unfoldable pub trim_space : Text → Text
unfolding trim_left trim_right
trim_space s = trim_right (trim_left s)

-- strings.Cut(s, sep) at a single byte: what stands before and behind its first occurrence
unfoldable pub cut : ℕ → Text → Option (Text × Text)
cut sep [] = none
cut sep (c ∷ cs) =
    let rest = cut sep cs in
    if c == sep then some ([], cs) else elim rest [ none ↦ none | some (a, b) ↦ some (c ∷ a, b) ]

-- strings.Split(s, sep) at a single byte: never empty
unfoldable pub split : ℕ → Text → List Text
split sep [] = [] ∷ []
split sep (c ∷ cs) = put_first (split sep cs)
  where
    put_first : List Text → List Text
    put_first [] = (c ∷ []) ∷ []
    put_first (p ∷ ps) = if c == sep then [] ∷ p ∷ ps else (c ∷ p) ∷ ps

-- the pieces of a text between white space, the empty ones included
pieces : Text → List Text
unfolding is_space
pieces [] = [] ∷ []
pieces (c ∷ cs) = put_first (pieces cs)
  where
    put_first : List Text → List Text
    put_first [] = (c ∷ []) ∷ []
    put_first (p ∷ ps) = if is_space c then [] ∷ p ∷ ps else (c ∷ p) ∷ ps

abbrev without_empty : List Text → List Text
without_empty [] = []
without_empty ([] ∷ ps) = without_empty ps
without_empty ((c ∷ cs) ∷ ps) = (c ∷ cs) ∷ without_empty ps

-- strings.Fields
unfoldable pub fields : Text → List Text
unfolding pieces
fields s = without_empty (pieces s)

abbrev pub is_digit : ℕ → Bool
is_digit c = leb b'0' c && leb c b'9'

-- the value of a row of digits, at least one
unfoldable pub digits_from : ℕ → Text → Option ℕ
digits_from v [] = some v
digits_from v (c ∷ cs) =
    let rest = digits_from (v * 10 + (c - 48)) cs in if is_digit c then rest else none

unfoldable pub unsigned : Text → Option ℕ
unfolding digits_from
unsigned [] = none
unsigned (c ∷ cs) = digits_from 0 (c ∷ cs)

abbrev in_range : ℕ → ℕ → (ℕ → ℤ) → Option ℤ
in_range limit n f = if leb n limit then some (f n) else none

-- strconv.Atoi: an optional sign, digits, and a value that an `int` holds
unfoldable pub atoi : Text → Option ℤ
unfolding unsigned
atoi [] = none
atoi (c ∷ cs) =
    if c == b'-'
    then elim (unsigned cs) [
      | none ↦ none
      | some n ↦ in_range 9223372036854775808 n (λ k. sub_ℕ 0 k)
    ]
    else if c == b'+'
    then elim (unsigned cs) [ none ↦ none | some n ↦ in_range 9223372036854775807 n pos ]
    else elim (unsigned (c ∷ cs)) [ none ↦ none | some n ↦ in_range 9223372036854775807 n pos ]

-- n, _ := strconv.Atoi(s): 0 for what is no number, and the nearest `int` for what is out of range
unfoldable pub atoi_value : Text → ℤ
unfolding unsigned
atoi_value [] = pos 0
atoi_value (c ∷ cs) =
    if c == b'-'
    then elim (unsigned cs) [
      | none ↦ pos 0
      | some n ↦ sub_ℕ 0 (if leb n 9223372036854775808 then n else 9223372036854775808)
    ]
    else elim (unsigned (if c == b'+' then cs else c ∷ cs)) [
      | none ↦ pos 0
      | some n ↦ pos (if leb n 9223372036854775807 then n else 9223372036854775807)
    ]
