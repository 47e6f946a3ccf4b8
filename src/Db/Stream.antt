-- ===== src/Db/Stream.antt =====
-- Operations that do nothing to the Redis stream: one rule for each way to build an operation.
use durable_work_flow_engine.Prelude.{◌≡◌, refl, ◌∙◌, Bool, true, false, if◌then◌else◌}
use durable_work_flow_engine.Domain.{Error, Result, ok, err}
use durable_work_flow_engine.Db.Environment.{World, pipe, Fault, fine, refused, reply_lost}
use durable_work_flow_engine.Db.Rows.{Database}
use durable_work_flow_engine.Db.Exec.{
  Exec, pure, raise, lift, counted, answer, statement, continue, ◌>>=◌, transaction, begin, finish,
  commit,
}

pub record KeepsPipe {A : Type 0} (m : Exec A) : Type 0 where
  pub same : (w : World) → pipe (m w).1 ≡ pipe w

module _ {A : Type 0} where
  pub lift-KeepsPipe : (r : Result A) → KeepsPipe (lift r)
  lift-KeepsPipe r = record { same = λ w. refl }

  pub pure-KeepsPipe : (a : A) → KeepsPipe (pure a)
  pure-KeepsPipe a = record { same = λ w. refl }

  pub raise-KeepsPipe : (e : Error) → KeepsPipe (raise {A = A} e)
  raise-KeepsPipe e = record { same = λ w. refl }

  pub statement-KeepsPipe : (s : Exec A) → KeepsPipe s → KeepsPipe (statement s)
  unfolding statement
  statement-KeepsPipe s k = record { same = λ w. go w (w.faults w.calls) }
    where
      go : (w : World) (f : Fault) → pipe (answer f (counted w) (s (counted w))).1 ≡ pipe w
      go w fine = k.same (counted w)
      go w (refused e) = refl
      go w (reply_lost e) = k.same (counted w)

  pub read-KeepsPipe : (f : World → Result A) → KeepsPipe (statement λ w. (f w, w))
  read-KeepsPipe f = statement-KeepsPipe _ record { same = λ w. refl }

  pub transaction-KeepsPipe : (body : Exec A) → KeepsPipe body → KeepsPipe (transaction body)
  unfolding transaction
  transaction-KeepsPipe body k = record { same = λ w. go w (w.faults w.calls) }
    where
      committed :
          (f : Fault) (old : Database) (a : A) (v : World) → pipe (commit f old a v).1 ≡ pipe v
      committed fine old a v = refl
      committed (refused e) old a v = refl
      committed (reply_lost e) old a v = refl

      finished : (old : Database) (r : Result A) (v : World) → pipe (finish old r v).1 ≡ pipe v
      finished old (ok a) v = committed (v.faults v.calls) old a v
      finished old (err e) v = refl

      go : (w : World) (f : Fault) → pipe (begin f body (counted w)).1 ≡ pipe w
      go w fine = let r = body (counted w) in finished w.db r.0 r.1 ∙ k.same (counted w)
      go w (refused e) = refl
      go w (reply_lost e) = refl

  pub if-KeepsPipe :
      (b : Bool) (m n : Exec A) → KeepsPipe m → KeepsPipe n → KeepsPipe (if b then m else n)
  if-KeepsPipe true m n km kn = km
  if-KeepsPipe false m n km kn = kn

pub bind-KeepsPipe :
    {A B : Type 0} (m : Exec A) (f : A → Exec B)
    → KeepsPipe m
    → ((a : A) → KeepsPipe (f a))
    → KeepsPipe (m >>= f)
bind-KeepsPipe {A} {B} m f k kf = record { same = λ w. let r = m w in go r.0 r.1 ∙ k.same w }
  where
    go : (r : Result A) (v : World) → pipe (continue r f v).1 ≡ pipe v
    go (ok a) v = (kf a).same v
    go (err e) v = refl
