-- ===== src/HttpApi/Limit.antt =====
-- The limit in the query of internal/httpapi/router.go.
use durable_work_flow_engine.Prelude.{
  ℕ, nat_eq, zero, suc, String, ◌≡◌, subst, ◌⊎◌, inl, inr, true, false, Bool-cases, Option, none,
  some, arith, ◌≤◌, ◌<◌, ◌^◌, ℤ, pos, negsuc, atoi, trim_space, is_char, natural, in_int,
  in_int_negated, ltb, leb, ltb→lt,
}
use durable_work_flow_engine.Domain.{ok}
use durable_work_flow_engine.Workflow.{is_blank}
use durable_work_flow_engine.HttpApi.{parse_positive_int_query, positive_int}

-- A positive `int` of 64 bits.
abbrev pub IsLimit : ℤ → Type 0
IsLimit (pos n) = (1 ≤ n) × (n < 2 ^ 63)
IsLimit (negsuc n) = ⊥

abbrev InInt : Option ℤ → Type 0
InInt (some (pos n)) = n < 2 ^ 63
InInt _ = Unit

in_int-InInt : (o : Option ℕ) → InInt (in_int o)
in_int-InInt none = tt
in_int-InInt (some n) = elim (Bool-cases (ltb n (2 ^ 63))) [
  | inl fits ↦ rw fits (ltb→lt n (2 ^ 63) fits)
  | inr large ↦ rw large tt
]

in_int_negated-InInt : (o : Option ℕ) → InInt (in_int_negated o)
in_int_negated-InInt none = tt
in_int_negated-InInt (some n) = elim (Bool-cases (nat_eq n 0)) [
  | inl e ↦ rw e (omega arith)
  | inr other ↦ elim (Bool-cases (leb n (2 ^ 63))) [
    | inl fits ↦ rw (other, fits) tt
    | inr large ↦ rw (other, large) tt
  ]
]

atoi-InInt : (s : String) → InInt (atoi s)
unfolding atoi
atoi-InInt String.[] = tt
atoi-InInt (String.◌∷◌ c s) = elim (Bool-cases (is_char b'-' c)) [
  | inl minus ↦ rw minus (in_int_negated-InInt (natural s))
  | inr other ↦ elim (Bool-cases (is_char b'+' c)) [
    | inl plus ↦ rw (other, plus) (in_int-InInt (natural s))
    | inr none_of_them ↦ rw (other, none_of_them) (in_int-InInt (natural (String.◌∷◌ c s)))
  ]
]

positive_int-IsLimit :
    (key : String) (o : Option ℤ) (z : ℤ) → InInt o → positive_int key o ≡ ok z → IsLimit z
positive_int-IsLimit key none z i h = cc
positive_int-IsLimit key (some (pos zero)) z i h = cc
positive_int-IsLimit key (some (pos (suc n))) z i h = subst IsLimit (same_limit h) (omega arith, i)
  where
    same_limit : {x y : ℤ} → ok x ≡ ok y → x ≡ y
    same_limit e = cc
positive_int-IsLimit key (some (negsuc n)) z i h = cc

-- A limit in the query that is accepted is either blank, and counts as 0, or it is from 1 to
-- 2 ^ 63 - 1.
pub parse_positive_int_query-IsLimit :
    (raw key : String) (z : ℤ)
    → parse_positive_int_query raw key ≡ ok z
    → ((is_blank raw ≡ true) × (z ≡ pos 0)) ⊎ ((is_blank raw ≡ false) × IsLimit z)
unfolding parse_positive_int_query
parse_positive_int_query-IsLimit raw key z h = elim (Bool-cases (is_blank raw)) [
  | inl blank ↦ let zero_limit = rw blank at h in inl (blank, ground (arith, zero_limit))
  | inr given ↦ inr (
    given,
    positive_int-IsLimit key (atoi (trim_space raw)) z (atoi-InInt (trim_space raw))
        (rw given at h),
  )
]
