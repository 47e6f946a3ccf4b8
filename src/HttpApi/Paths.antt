-- ===== src/HttpApi/Paths.antt =====
-- The paths of task actions in internal/httpapi/router.go, and the limit in the query.
use Prim.Native.Char.{Char, code}
use Prim.Native.Nat.{ℕ}
use text.Mathlib.TextLemmas.{nil-append, cons-append}
use durable_work_flow_engine.Prelude.{
  String, ◌≡◌, refl, ap, ◌⊎◌, trim_space, ◌∙◌, true, false, Bool-cases, inl, inr, some, [], ◌∷◌,
  arith, nat_eq, is_char, is_empty, after_prefix, trim_prefix, trim_left_of, trim_right_of, trim_of,
  split_on,
}
use durable_work_flow_engine.Domain.{◌<>◌}
use durable_work_flow_engine.Workflow.{is_blank}
use durable_work_flow_engine.HttpApi.{parse_task_action_path}

-- A text without the byte.
abbrev pub Free : ℕ → String → Type 0
Free b String.[] = Unit
Free b (String.◌∷◌ c s) = (is_char b c ≡ false) × Free b s

nat_eq_refl : (n : ℕ) → nat_eq n n ≡ true
nat_eq_refl n = ground arith

after_prefix-append : (p s : String) → after_prefix p (p <> s) ≡ some s
unfolding after_prefix
after_prefix-append String.[] s = ap some (nil-append s)
after_prefix-append (String.◌∷◌ c p) s =
    rw (cons-append c p s, nat_eq_refl (code c)) (after_prefix-append p s)

-- Splitting at the first `/` after a text without one.
split_on-Free : (b : ℕ) (s : String) → Free b s → split_on b s ≡ s ∷ []
unfolding split_on
split_on-Free b String.[] f = refl
split_on-Free b (String.◌∷◌ c s) f = rw (f.0, split_on-Free b s f.1) refl

split_on-append :
    (c : Char) (s t : String)
    → Free (code c) s
    → split_on (code c) (s <> String.◌∷◌ c t) ≡ s ∷ split_on (code c) t
unfolding split_on
split_on-append c String.[] t f = rw (nil-append (String.◌∷◌ c t), nat_eq_refl (code c)) refl
split_on-append c (String.◌∷◌ d s) t f =
    rw (cons-append d s (String.◌∷◌ c t), f.0, split_on-append c s t f.1) refl

trim_left_of-Free :
    (b : ℕ) (s t : String) → Free b s → is_empty s ≡ false → trim_left_of b (s <> t) ≡ s <> t
unfolding trim_left_of
trim_left_of-Free b String.[] t f e = cc
trim_left_of-Free b (String.◌∷◌ c s) t f e = rw (cons-append c s t, f.0) refl

-- What ends in another byte keeps its end.
trim_right_cons :
    (b : ℕ) (c : Char) (s : String)
    → trim_right_of b s ≡ s
    → (is_empty s ≡ false) ⊎ (is_char b c ≡ false)
    → trim_right_of b (String.◌∷◌ c s) ≡ String.◌∷◌ c s
unfolding trim_right_of
trim_right_cons b c s same (inl full) = rw (same, full) refl
trim_right_cons b c s same (inr other) = elim (Bool-cases (is_empty s)) [
  | inl e ↦ rw (same, e, other) refl
  | inr e ↦ rw (same, e) refl
]

trim_right_of-Free : (b : ℕ) (s : String) → Free b s → trim_right_of b s ≡ s
unfolding trim_right_of
trim_right_of-Free b String.[] f = refl
trim_right_of-Free b (String.◌∷◌ c s) f =
    trim_right_cons b c s (trim_right_of-Free b s f.1) (inr f.0)

append_full : (s t : String) → is_empty t ≡ false → is_empty (s <> t) ≡ false
append_full String.[] t e = rw (nil-append t) e
append_full (String.◌∷◌ c s) t e = rw (cons-append c s t) refl

trim_right_of-append :
    (b : ℕ) (s t : String)
    → trim_right_of b t ≡ t
    → is_empty t ≡ false
    → trim_right_of b (s <> t) ≡ s <> t
trim_right_of-append b String.[] t same e = rw (nil-append t) same
trim_right_of-append b (String.◌∷◌ c s) t same e =
    rw (cons-append c s t)
      (trim_right_cons b c (s <> t) (trim_right_of-append b s t same e) (inl (append_full s t e)))

trim_prefix-append : (p s : String) → trim_prefix p (p <> s) ≡ s
unfolding trim_prefix
trim_prefix-append p s = rw (trim_prefix, after_prefix-append p s) refl

Blank-full : (s : String) → is_blank s ≡ false → is_empty s ≡ false
unfolding trim_space
Blank-full String.[] h = cc
Blank-full (String.◌∷◌ c s) h = refl

-- The path of an action of a task is read back: where neither the id nor the action is blank or has a
-- `/`, the path `/api/tasks/<id>/<action>` gives this id and this action.
pub parse_task_action_path-path :
    (id action : String)
    → Free b'/' id
    → Free b'/' action
    → is_blank id ≡ false
    → is_blank action ≡ false
    → parse_task_action_path ("/api/tasks/" <> (id <> ("/" <> action))) ≡ some (id, action)
unfolding parse_task_action_path trim_of
parse_task_action_path-path id action free_id free_action full_id full_action =
    let tail : String = String.◌∷◌ "/" action in
    let with_slash : "/" <> action ≡ tail =
      cons-append "/" String.[] action ∙ ap (λ t. String.◌∷◌ "/" t) (nil-append action) in
    let full = Blank-full action full_action in
    let trimmed : trim_right_of b'/' tail ≡ tail =
      trim_right_cons b'/' "/" action (trim_right_of-Free b'/' action free_action) (inl full) in
    rw
      (
        with_slash,
        trim_prefix-append "/api/tasks/" (id <> tail),
        trim_left_of-Free b'/' id tail free_id (Blank-full id full_id),
        trim_right_of-append b'/' id tail trimmed refl,
        split_on-append "/" id action free_id,
        split_on-Free b'/' action free_action,
        full_id,
        full_action,
      )
      refl
