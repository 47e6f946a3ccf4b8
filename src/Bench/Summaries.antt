-- ===== src/Bench/Summaries.antt =====
-- The percentiles of cmd/bench/main.go lie between the least and the greatest value.
use durable_work_flow_engine.Prelude.{
  ℕ, zero, suc, ◌-◌, ◌≤◌, ◌<◌, ◌≡◌, refl, ap, sym, subst, ◌∙◌, inl, inr, Bool, true, false,
  Bool-cases, some, List, [], ◌∷◌, arith, All, All-map, length, nat_eq, same_some, leb, insert_by,
  sort_by, ℤ, pos, negsuc,
}
use durable_work_flow_engine.Bench.{
  clamped, percentile_index, get_elem?, percentile, Summary, summary_of, summarized, summarize,
}

clamped-bounds : (n : ℕ) (z : ℤ) → clamped (suc n) z < suc n
clamped-bounds n (negsuc k) = omega arith
clamped-bounds n (pos zero) = omega arith
clamped-bounds n (pos (suc k)) = elim (Bool-cases (leb (suc n) k)) [
  | inl large ↦ rw large (omega arith)
  | inr small ↦ rw small (ground (arith, small))
]

percentile_index-bounds :
    (ceil : ℕ → ℕ → ℤ) (n percent : ℕ) → percentile_index ceil (suc n) percent < suc n
unfolding percentile_index
percentile_index-bounds ceil n percent = elim (Bool-cases (nat_eq (suc n) 1)) [
  | inl one ↦ rw one (omega arith)
  | inr more ↦ rw more (clamped-bounds n (ceil percent (suc n)))
]

module _ {A : Type 0} where
  get_elem-in_range : (xs : List A) (i : ℕ) → i < length xs → (a : A) × (get_elem? xs i ≡ some a)
  get_elem-in_range [] i h = absurd (omega arith)
  get_elem-in_range (x ∷ xs) zero h = (x, refl)
  get_elem-in_range (x ∷ xs) (suc i) h = get_elem-in_range xs i (omega arith)

  get_elem-All :
      (P : A → Type 0) (xs : List A) (i : ℕ) (a : A) → All P xs → get_elem? xs i ≡ some a → P a
  get_elem-All P [] i a h e = cc
  get_elem-All P (x ∷ xs) zero a h e = subst P (same_some e) h.0
  get_elem-All P (x ∷ xs) (suc i) a h e = get_elem-All P xs i a h.1 e

-- `before` is an order of all values.
pub record IsOrder {A : Type 0} (before : A → A → Bool) : Type 0 where
  pub refl_before : (a : A) → before a a ≡ true
  pub total : (a b : A) → before a b ≡ false → before b a ≡ true
  pub trans : (a b c : A) → before a b ≡ true → before b c ≡ true → before a c ≡ true

module _ {A : Type 0} (before : A → A → Bool) where
  -- Every value of the summary lies between the least and the greatest one.
  abbrev pub IsBetween : Summary A → Type 0
  IsBetween s =
      ((before s.min s.p50 ≡ true) × (before s.p50 s.max ≡ true))
      × ((before s.min s.p95 ≡ true) × (before s.p95 s.max ≡ true))
      × ((before s.min s.p99 ≡ true) × (before s.p99 s.max ≡ true))

module _ {A : Type 0} (before : A → A → Bool) (k : IsOrder before) where
  abbrev AfterAll : A → List A → Type 0
  AfterAll x ys = All (λ y. before x y ≡ true) ys

  abbrev Sorted : List A → Type 0
  Sorted [] = Unit
  Sorted (x ∷ xs) = AfterAll x xs × Sorted xs

  insert_by-AfterAll :
      (x y : A) (ys : List A)
      → before x y ≡ true
      → AfterAll x ys
      → AfterAll x (insert_by before y ys)
  insert_by-AfterAll x y [] h all = (h, tt)
  insert_by-AfterAll x y (z ∷ zs) h all = elim (Bool-cases (before y z)) [
    | inl first ↦ rw first (h, all)
    | inr later ↦ rw later (all.0, insert_by-AfterAll x y zs h all.1)
  ]

  insert_by-Sorted : (x : A) (ys : List A) → Sorted ys → Sorted (insert_by before x ys)
  insert_by-Sorted x [] h = (tt, tt)
  insert_by-Sorted x (y ∷ ys) h = elim (Bool-cases (before x y)) [
    | inl first ↦ rw first ((first, All-map ys (λ z after. k.trans x y z first after) h.0), h)
    | inr later ↦
        rw later (insert_by-AfterAll y x ys (k.total x y later) h.0, insert_by-Sorted x ys h.1)
  ]

  sort_by-Sorted : (xs : List A) → Sorted (sort_by before xs)
  sort_by-Sorted [] = tt
  sort_by-Sorted (x ∷ xs) = insert_by-Sorted x (sort_by before xs) (sort_by-Sorted xs)

  -- Of two places the earlier one has the smaller value.
  get_elem-before :
      (xs : List A) (i j : ℕ) (a b : A)
      → Sorted xs
      → i ≤ j
      → get_elem? xs i ≡ some a
      → get_elem? xs j ≡ some b
      → before a b ≡ true
  get_elem-before [] i j a b s h e f = cc
  get_elem-before (x ∷ xs) zero zero a b s h e f =
      subst (λ z. before a z ≡ true) (same_some (sym e ∙ f)) (k.refl_before a)
  get_elem-before (x ∷ xs) zero (suc j) a b s h e f =
      subst (λ z. before z b ≡ true) (same_some e)
        (get_elem-All (λ y. before x y ≡ true) xs j b s.0 f)
  get_elem-before (x ∷ xs) (suc i) zero a b s h e f = absurd (omega arith)
  get_elem-before (x ∷ xs) (suc i) (suc j) a b s h e f =
      get_elem-before xs i j a b s.1 (omega arith) e f

  summary_of-IsBetween :
      (ceil : ℕ → ℕ → ℤ) (xs : List A)
      → Sorted xs
      → 1 ≤ length xs
      → (s : Summary A) × (summary_of ceil xs ≡ some s) × (s.count ≡ length xs) × IsBetween before s
  unfolding summary_of percentile
  summary_of-IsBetween ceil [] sorted h = absurd (omega arith)
  summary_of-IsBetween ceil (x ∷ xs) sorted h =
      let n = length xs in
      let i = percentile_index ceil (suc n) 50 in
      let j = percentile_index ceil (suc n) 95 in
      let m = percentile_index ceil (suc n) 99 in
      let i_in = percentile_index-bounds ceil n 50 in
      let j_in = percentile_index-bounds ceil n 95 in
      let m_in = percentile_index-bounds ceil n 99 in
      let (a, is_a) = get_elem-in_range (x ∷ xs) i i_in in
      let (b, is_b) = get_elem-in_range (x ∷ xs) j j_in in
      let (c, is_c) = get_elem-in_range (x ∷ xs) m m_in in
      let (d, is_d) = get_elem-in_range (x ∷ xs) (suc n - 1) (omega arith) in
      let low : (k : ℕ) (y : A) → get_elem? (x ∷ xs) k ≡ some y → before x y ≡ true =
        λ k y e. get_elem-before (x ∷ xs) 0 k x y sorted (omega arith) refl e in
      let high : (k : ℕ) (y : A) → k < suc n → get_elem? (x ∷ xs) k ≡ some y → before y d ≡ true =
        λ k y small e. get_elem-before (x ∷ xs) k (suc n - 1) y d sorted (omega arith) e is_d in
      let s : Summary A = record { count = suc n; min = x; p50 = a; p95 = b; p99 = c; max = d } in
      (
        s,
        rw (is_a, is_b, is_c, is_d) refl,
        refl,
        (
          (low i a is_a, high i a i_in is_a),
          (low j b is_b, high j b j_in is_b),
          (low m c is_c, high m c m_in is_c),
        ),
      )

  length-insert_by : (x : A) (ys : List A) → length (insert_by before x ys) ≡ suc (length ys)
  length-insert_by x [] = refl
  length-insert_by x (y ∷ ys) = elim (Bool-cases (before x y)) [
    | inl first ↦ rw first refl
    | inr later ↦ rw (later, length-insert_by x ys) refl
  ]

  length-sort_by : (xs : List A) → length (sort_by before xs) ≡ length xs
  length-sort_by [] = refl
  length-sort_by (x ∷ xs) = rw (length-insert_by x (sort_by before xs), length-sort_by xs) refl

-- Each of summarizeDurations, summarizeInts and summarizeFloats, for any order of the values that is
-- reflexive, total and transitive and any rounding of the index of a percentile: of one value or more
-- it gives a summary and does not panic, the summary counts all the values, and its percentiles lie
-- between its minimum and its maximum.
pub summarize-IsBetween :
    {A : Type 0} (before : A → A → Bool)
    → IsOrder before
    → (ceil : ℕ → ℕ → ℤ) (v : A) (vs : List A)
    → (s : Summary A) × (summarize ceil before (v ∷ vs) ≡ summarized (some s))
      × (s.count ≡ length (v ∷ vs))
      × IsBetween before s
unfolding summarize
summarize-IsBetween before k ceil v vs =
    let sorted = sort_by before (v ∷ vs) in
    let long = length-sort_by before k (v ∷ vs) in
    let (s, gives, counts, between) =
      summary_of-IsBetween before k ceil sorted (sort_by-Sorted before k (v ∷ vs))
        (rw long (omega arith)) in
    (s, ap summarized gives, counts ∙ long, between)
