-- ===== src/Prelude/Strings.antt =====
-- Go's `strings.TrimPrefix`, `strings.Trim` and `strings.Split` with one byte, and `strconv.Atoi`.
use Prim.Native.Char.{Char, code}
use Prim.Native.Nat.{ℕ, ◌+◌, ◌-◌, ◌*◌, ◌^◌}
use Prim.Native.String.{String}
use mathlib.Core.Bool.{Bool, ◌&&◌}
use mathlib.Core.Option.{Option, none, some}
use mathlib.Core.List.{List, [], ◌∷◌}
use durable_work_flow_engine.Prelude.Tests.{ltb, leb, nat_eq, if◌then◌else◌}
use durable_work_flow_engine.Prelude.Text.{is_empty}
use durable_work_flow_engine.Prelude.Int.{ℤ, pos, negsuc}

abbrev pub is_char : ℕ → Char → Bool
is_char b c = nat_eq (code c) b

-- What follows the prefix, where there is one.
unfoldable pub after_prefix : String → String → Option String
after_prefix String.[] s = some s
after_prefix (String.◌∷◌ c p) String.[] = none
after_prefix (String.◌∷◌ c p) (String.◌∷◌ d s) =
    let rest = after_prefix p s in if nat_eq (code c) (code d) then rest else none

unfoldable pub trim_prefix : String → String → String
trim_prefix p s = elim (after_prefix p s) [ some rest ↦ rest | none ↦ s ]

unfoldable pub trim_left_of : ℕ → String → String
trim_left_of b String.[] = String.[]
trim_left_of b (String.◌∷◌ c s) =
    let rest = trim_left_of b s in if is_char b c then rest else String.◌∷◌ c s

unfoldable pub trim_right_of : ℕ → String → String
trim_right_of b String.[] = String.[]
trim_right_of b (String.◌∷◌ c s) =
    let rest = trim_right_of b s in
    if is_empty rest && is_char b c then String.[] else String.◌∷◌ c rest

-- `strings.Trim(s, "/")` for the byte `/`.
unfoldable pub trim_of : ℕ → String → String
trim_of b s = trim_right_of b (trim_left_of b s)

abbrev pub push_first : Char → List String → List String
push_first c [] = String.◌∷◌ c String.[] ∷ []
push_first c (s ∷ ss) = String.◌∷◌ c s ∷ ss

-- `strings.Split(s, "/")` for the byte `/`: there is always a part.
unfoldable pub split_on : ℕ → String → List String
split_on b String.[] = "" ∷ []
split_on b (String.◌∷◌ c s) =
    let rest = split_on b s in if is_char b c then "" ∷ rest else push_first c rest

-- The value of a run of decimal digits after the digits that make `n`.
unfoldable pub digits_value : ℕ → String → Option ℕ
digits_value n String.[] = some n
digits_value n (String.◌∷◌ c s) =
    let rest = digits_value (n * 10 + (code c - b'0')) s in
    if leb b'0' (code c) && leb (code c) b'9' then rest else none

abbrev pub natural : String → Option ℕ
natural String.[] = none
natural (String.◌∷◌ c s) = digits_value 0 (String.◌∷◌ c s)

-- An `int` of 64 bits; `- n` for a negative number.
abbrev pub in_int : Option ℕ → Option ℤ
in_int none = none
in_int (some n) = if ltb n (2 ^ 63) then some (pos n) else none

abbrev pub negated : ℕ → Option ℤ
negated n =
    if nat_eq n 0 then some (pos 0) else if leb n (2 ^ 63) then some (negsuc (n - 1)) else none

abbrev pub in_int_negated : Option ℕ → Option ℤ
in_int_negated none = none
in_int_negated (some n) = negated n

unfoldable pub atoi : String → Option ℤ
atoi String.[] = none
atoi (String.◌∷◌ c s) =
    if is_char b'-' c
    then in_int_negated (natural s)
    else if is_char b'+' c
    then in_int (natural s)
    else in_int (natural (String.◌∷◌ c s))
