-- ===== src/Prelude/Tables.antt =====
-- Lemmas on tables: rows are added at the end, and changed in place by `update_where`.
use mathlib.Core.Path.{◌≡◌, refl, subst, ◌∙◌}
use mathlib.Core.Logic.{inl, inr}
use mathlib.Core.Bool.{Bool, true, false}
use mathlib.Core.Option.{none, some}
use mathlib.Core.List.{List, [], ◌∷◌, ◌++◌}
use native.Mathlib.Omega.{arith}
use durable_work_flow_engine.Prelude.Tests.{if◌then◌else◌, Bool-cases}
use durable_work_flow_engine.Prelude.Lists.{any, find, filter, update_where, All, Any}

-- No two rows are the same by the test.
abbrev pub Distinct {ℓ} : {A : Type ℓ} → (A → A → Bool) → List A → Type 0
Distinct same [] = Unit
Distinct same (x ∷ xs) = All (λ y. same x y ≡ false) xs × Distinct same xs

module _ {ℓ} {A : Type ℓ} where
  pub All-map : {P Q : A → Type 0} (xs : List A) → ((x : A) → P x → Q x) → All P xs → All Q xs
  All-map [] f h = tt
  All-map (x ∷ xs) f h = (f x h.0, All-map xs f h.1)

  pub All-append : (P : A → Type 0) (xs ys : List A) → All P xs → All P ys → All P (xs ++ ys)
  All-append P [] ys h k = k
  All-append P (x ∷ xs) ys h k = (h.0, All-append P xs ys h.1 k)

  pub All-update_where :
      {P Q : A → Type 0} (q : A → Bool) (f : A → A) (xs : List A)
      → ((x : A) → P x → Q x)
      → ((x : A) → P x → Q (f x))
      → All P xs
      → All Q (update_where q f xs)
  All-update_where q f [] same changed h = tt
  All-update_where {Q} q f (x ∷ xs) same changed h =
      (go (q x), All-update_where q f xs same changed h.1)
    where
      go : (b : Bool) → Q (if b then f x else x)
      go true = changed x h.0
      go false = same x h.0

  -- The same where the two cases may use the test.
  pub All-update_where_if :
      {P Q : A → Type 0} (q : A → Bool) (f : A → A) (xs : List A)
      → ((x : A) → q x ≡ false → P x → Q x)
      → ((x : A) → q x ≡ true → P x → Q (f x))
      → All P xs
      → All Q (update_where q f xs)
  All-update_where_if q f [] same changed h = tt
  All-update_where_if {Q} q f (x ∷ xs) same changed h =
      (go (q x) refl, All-update_where_if q f xs same changed h.1)
    where
      go : (b : Bool) → q x ≡ b → Q (if b then f x else x)
      go true e = changed x e h.0
      go false e = same x e h.0

  pub any-append : (p : A → Bool) (xs ys : List A) → any p xs ≡ true → any p (xs ++ ys) ≡ true
  any-append p [] ys h = cc
  any-append p (x ∷ xs) ys h = ground (arith, any-append p xs ys)

  pub any-append_last :
      (p : A → Bool) (xs : List A) (y : A) → p y ≡ true → any p (xs ++ y ∷ []) ≡ true
  any-append_last p [] y h = ground arith
  any-append_last p (x ∷ xs) y h = ground (arith, any-append_last p xs y h)

  pub any-update_where :
      (p q : A → Bool) (f : A → A) (xs : List A)
      → ((x : A) → p (f x) ≡ p x)
      → any p (update_where q f xs) ≡ any p xs
  any-update_where p q f [] k = refl
  any-update_where p q f (x ∷ xs) k = ground (arith, k x, any-update_where p q f xs k)

  pub any-false : (p : A → Bool) (xs : List A) → any p xs ≡ false → All (λ x. p x ≡ false) xs
  any-false p [] h = tt
  any-false p (x ∷ xs) h = (ground arith, any-false p xs (ground arith))

  pub Any-append : (P : A → Type 0) (xs ys : List A) → Any P xs → Any P (xs ++ ys)
  Any-append P [] ys h = absurd h
  Any-append P (x ∷ xs) ys (inl h) = inl h
  Any-append P (x ∷ xs) ys (inr h) = inr (Any-append P xs ys h)

  pub Any-last : (P : A → Type 0) (xs : List A) (y : A) → P y → Any P (xs ++ y ∷ [])
  Any-last P [] y h = inl h
  Any-last P (x ∷ xs) y h = inr (Any-last P xs y h)

  pub Any-map : {P Q : A → Type 0} (xs : List A) → ((x : A) → P x → Q x) → Any P xs → Any Q xs
  Any-map [] f h = absurd h
  Any-map (x ∷ xs) f (inl h) = inl (f x h)
  Any-map (x ∷ xs) f (inr h) = inr (Any-map xs f h)

  pub Any-update_where :
      {P : A → Type 0} (q : A → Bool) (f : A → A) (xs : List A)
      → ((x : A) → P x → P (f x))
      → Any P xs
      → Any P (update_where q f xs)
  Any-update_where q f [] k h = absurd h
  Any-update_where {P} q f (x ∷ xs) k (inl h) = inl (go (q x))
    where
      go : (b : Bool) → P (if b then f x else x)
      go true = k x h
      go false = h
  Any-update_where q f (x ∷ xs) k (inr h) = inr (Any-update_where q f xs k h)

  pub Distinct-append :
      (same : A → A → Bool) (xs : List A) (y : A)
      → Distinct same xs
      → All (λ x. same x y ≡ false) xs
      → Distinct same (xs ++ y ∷ [])
  Distinct-append same [] y d h = (tt, tt)
  Distinct-append same (x ∷ xs) y d h = (
    All-append (λ y. same x y ≡ false) xs (y ∷ []) d.0 (h.0, tt),
    Distinct-append same xs y d.1 h.1,
  )

  -- A change that keeps what the test looks at.
  pub Distinct-update_where :
      (same : A → A → Bool) (q : A → Bool) (f : A → A) (xs : List A)
      → ((x y : A) → same (f x) y ≡ same x y)
      → ((x y : A) → same x (f y) ≡ same x y)
      → Distinct same xs
      → Distinct same (update_where q f xs)
  Distinct-update_where same q f [] l r d = tt
  Distinct-update_where same q f (x ∷ xs) l r d =
      (go (q x), Distinct-update_where same q f xs l r d.1)
    where
      later :
          (z : A)
          → ((y : A) → same z y ≡ same x y)
          → All (λ y. same z y ≡ false) (update_where q f xs)
      later z e = All-update_where q f xs (λ y h. e y ∙ h) (λ y h. e (f y) ∙ r x y ∙ h) d.0

      go : (b : Bool) → All (λ y. same (if b then f x else x) y ≡ false) (update_where q f xs)
      go true = later (f x) (λ y. l x y)
      go false = later x (λ y. refl)

  pub All-filter : (P : A → Type 0) (p : A → Bool) (xs : List A) → All P xs → All P (filter p xs)
  All-filter P p [] h = tt
  All-filter P p (x ∷ xs) h = go (p x) (All-filter P p xs h.1)
    where
      go : (b : Bool) → All P (filter p xs) → All P (if b then x ∷ filter p xs else filter p xs)
      go true rest = (h.0, rest)
      go false rest = rest

  pub Distinct-filter :
      (same : A → A → Bool) (p : A → Bool) (xs : List A)
      → Distinct same xs
      → Distinct same (filter p xs)
  Distinct-filter same p [] d = tt
  Distinct-filter same p (x ∷ xs) d = go (p x) (Distinct-filter same p xs d.1)
    where
      go :
          (b : Bool)
          → Distinct same (filter p xs)
          → Distinct same (if b then x ∷ filter p xs else filter p xs)
      go true rest = (All-filter (λ y. same x y ≡ false) p xs d.0, rest)
      go false rest = rest

  pub find-any : (p : A → Bool) (xs : List A) {x : A} → find p xs ≡ some x → any p xs ≡ true
  find-any p [] h = cc
  find-any p (y ∷ xs) {x} h = ground (arith, find-any p xs {x = x})

  pub any-find : (p : A → Bool) (xs : List A) → find p xs ≡ none → any p xs ≡ false
  any-find p [] h = refl
  any-find p (y ∷ xs) h = ground (arith, any-find p xs)

  -- What is found is a row that passes the test and has what all rows have.
  pub find-All :
      (P : A → Type 0) (p : A → Bool) (xs : List A) {x : A}
      → find p xs ≡ some x
      → All P xs
      → (p x ≡ true) × P x
  find-All P p [] h all = cc
  find-All P p (y ∷ xs) {x} h all = elim (Bool-cases (p y)) [
    | inl e ↦ let same : y ≡ x = ground arith in subst (λ z. (p z ≡ true) × P z) same (e, all.0)
    | inr e ↦ find-All P p xs (ground arith) all.1
  ]
