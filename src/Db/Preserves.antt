-- ===== src/Db/Preserves.antt =====
-- Invariants of the database under operations, whatever the faults: one rule for each way to build
-- an operation.
use durable_work_flow_engine.Prelude.{subst, sym, Bool, true, false, inl, inr, if◌then◌else◌}
use durable_work_flow_engine.Domain.{Error, Result, ok, err}
use durable_work_flow_engine.Db.Rows.{Database}
use durable_work_flow_engine.Db.Environment.{World, Fault, fine, refused, reply_lost}
use durable_work_flow_engine.Db.Exec.{
  Exec, pure, raise, lift, continue, ◌>>=◌, statement, answer, counted, transaction,
  transaction_cases,
}

-- `m` keeps `P`, whether it succeeds or fails.
pub record Preserves {A : Type 0} (P : Database → Type 0) (m : Exec A) : Type 0 where
  pub at : (w : World) → P w.db → P (m w).1.db

answer-keeps :
    {A : Type 0} (P : Database → Type 0) (f : Fault) (w : World) (done : Result A × World)
    → P w.db
    → P done.1.db
    → P (answer f w done).1.db
answer-keeps P fine w done h k = k
answer-keeps P (refused e) w done h k = h
answer-keeps P (reply_lost e) w done h k = k

continue-keeps :
    {A B : Type 0} (P : Database → Type 0) (r : Result A) (f : A → Exec B) (w : World)
    → ((a : A) → Preserves P (f a))
    → P w.db
    → P (continue r f w).1.db
continue-keeps P (ok a) f w k h = (k a).at w h
continue-keeps P (err e) f w k h = h

module _ {A : Type 0} {P : Database → Type 0} where
  pub Preserves-pure : (a : A) → Preserves P (pure a)
  Preserves-pure a = record { at = λ w h. h }

  pub Preserves-raise : (e : Error) → Preserves P (raise {A = A} e)
  Preserves-raise e = record { at = λ w h. h }

  pub Preserves-lift : (r : Result A) → Preserves P (lift r)
  Preserves-lift r = record { at = λ w h. h }

  pub Preserves-if :
      (b : Bool) (m n : Exec A) → Preserves P m → Preserves P n → Preserves P (if b then m else n)
  Preserves-if true m n km kn = km
  Preserves-if false m n km kn = kn

  pub Preserves-statement : (s : Exec A) → Preserves P s → Preserves P (statement s)
  unfolding statement
  Preserves-statement s k = record {
    at =
        λ w h. answer-keeps P (w.faults w.calls) (counted w) (s (counted w)) h (k.at (counted w) h);
  }

  pub Preserves-transaction : (body : Exec A) → Preserves P body → Preserves P (transaction body)
  Preserves-transaction body k = record {
    at = λ w h. elim (transaction_cases body w) [
      | inl kept ↦ subst P (sym kept) h
      | inr (a, v, ran, written) ↦
          subst P (sym written) (subst (λ x. P x.1.db) ran (k.at (counted w) h))
    ];
  }

module _ {A B : Type 0} {P : Database → Type 0} where
  pub Preserves-bind :
      (m : Exec A) (f : A → Exec B)
      → Preserves P m
      → ((a : A) → Preserves P (f a))
      → Preserves P (m >>= f)
  Preserves-bind m f km kf = record {
    at = λ w h. let (r, v) = m w in continue-keeps P r f v kf (km.at w h);
  }

pub ruleset preserves_rules = (
  Preserves-pure, Preserves-raise, Preserves-lift, Preserves-if, Preserves-statement,
  Preserves-transaction, Preserves-bind,
)
