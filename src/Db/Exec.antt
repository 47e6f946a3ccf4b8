-- ===== src/Db/Exec.antt =====
-- Operations on the world that may fail: statements outside and inside of transactions.
use durable_work_flow_engine.Prelude.{
  ℕ, ◌+◌, String, ◌≡◌, refl, ◌⊎◌, inl, inr, Option, none, some, Bool, suc, if◌then◌else◌, arith, ap,
  sym, subst, ◌∙◌,
}
use durable_work_flow_engine.Domain.{Error, Result, ok, err, no_rows}
use durable_work_flow_engine.Db.Rows.{Database}
use durable_work_flow_engine.Db.Environment.{World, Fault, fine, refused, reply_lost}

abbrev pub Exec : Type 0 → Type 0
Exec A = World → Result A × World

abbrev pub pure : {A : Type 0} → A → Exec A
pure a w = (ok a, w)

abbrev pub raise : {A : Type 0} → Error → Exec A
raise e w = (err e, w)

abbrev pub lift : {A : Type 0} → Result A → Exec A
lift r w = (r, w)

-- Go's `if err != nil { return err }` between two calls.
abbrev pub continue : {A B : Type 0} → Result A → (A → Exec B) → Exec B
continue (ok a) f w = f a w
continue (err e) f w = (err e, w)

infixl 5 ◌>>=◌ ◌>>◌
abbrev pub ◌>>=◌ : {A B : Type 0} → Exec A → (A → Exec B) → Exec B
◌>>=◌ m f w = let (r, w') = m w in continue r f w'

abbrev pub ◌>>◌ : {A B : Type 0} → Exec A → Exec B → Exec B
m >> k = m >>= λ _. k

-- `DEFAULT gen_random_uuid()`
abbrev pub gen_random_uuid : Exec String
gen_random_uuid w = (ok (w.uuids w.drawn), record w { drawn = suc w.drawn })

-- A constraint of a table, checked in the database that a statement meets.
abbrev pub check : (World → Bool) → Error → Exec (Unit {0})
check holds e w = if holds w then (ok tt, w) else (err e, w)

abbrev pub now : Exec ℕ
now w = (ok w.clock, w)

abbrev pub change : (Database → Database) → Exec (Unit {0})
change f w = (ok tt, record w { db = f w.db })

abbrev pub counted : World → World
counted w = record w { calls = w.calls + 1 }

abbrev pub answer : {A : Type 0} → Fault → World → Result A × World → Result A × World
answer fine before done = done
answer (refused e) before done = (err e, before)
answer (reply_lost e) before done = (err e, done.1)

-- One round trip that executes `s`; outside of a transaction it takes effect by itself.
unfoldable pub statement : {A : Type 0} → Exec A → Exec A
statement s w = answer (w.faults w.calls) (counted w) (s (counted w))

-- `tx.Commit(ctx)` after a body that succeeded: `w` has its writes, `old` is the database before.
abbrev pub commit : {A : Type 0} → Fault → Database → A → World → Result A × World
commit fine old a w = (ok a, counted w)
commit (refused e) old a w = (err e, counted (record w { db = old }))
commit (reply_lost e) old a w = (err e, counted w)

-- A body that fails is rolled back by the deferred `tx.Rollback(ctx)`.
abbrev pub finish : {A : Type 0} → Database → Result A → World → Result A × World
finish old (ok a) w = commit (w.faults w.calls) old a w
finish old (err e) w = (err e, record w { db = old })

abbrev pub begin : {A : Type 0} → Fault → Exec A → Exec A
begin fine body w = let (r, w') = body w in finish w.db r w'
begin (refused e) body w = (err e, w)
begin (reply_lost e) body w = (err e, w)

-- `BeginTx`, the statements of `body`, and `Commit` or `Rollback`. Transactions are serial.
unfoldable pub transaction : {A : Type 0} → Exec A → Exec A
transaction body w = begin (w.faults w.calls) body (counted w)

-- A statement that returns a row: `pgx.ErrNoRows` where there is none.
abbrev pub row_or_none : {A : Type 0} → Option A → Result A
row_or_none none = err no_rows
row_or_none (some a) = ok a

-- A statement succeeds only if it is executed and succeeds there.
pub statement-ok :
    {A : Type 0} (s : Exec A) (w w' : World) (a : A)
    → statement s w ≡ (ok a, w')
    → s (counted w) ≡ (ok a, w')
unfolding statement
statement-ok s w w' a h = ground arith

pub >>=-ok :
    {A B : Type 0} (m : Exec A) (f : A → Exec B) (w w' : World) (b : B)
    → (m >>= f) w ≡ (ok b, w')
    → (a : A) × (v : World) × (m w ≡ (ok a, v)) × (f a v ≡ (ok b, w'))
>>=-ok {A} m f w w' b h = let (r, v) = m w in go r v h refl
  where
    go :
        (r : Result A) (v : World)
        → continue r f v ≡ (ok b, w')
        → m w ≡ (r, v)
        → (a : A) × (v : World) × (m w ≡ (ok a, v)) × (f a v ≡ (ok b, w'))
    go (ok a) v e same = (a, v, same, e)
    go (err e') v e same = cc

finish_cases :
    {A : Type 0} (old : Database) (r : Result A) (v : World)
    → ((finish old r v).1.db ≡ old) ⊎ ((a : A) × (r ≡ ok a) × ((finish old r v).1.db ≡ v.db))
finish_cases {A} old (err e) v = inl refl
finish_cases {A} old (ok a) v = go (v.faults v.calls)
  where
    go :
        (f : Fault)
        → ((commit f old a v).1.db ≡ old)
          ⊎ ((b : A) × (ok a ≡ ok b) × ((commit f old a v).1.db ≡ v.db))
    go fine = inr (a, refl, refl)
    go (refused e) = inl refl
    go (reply_lost e) = inr (a, refl, refl)

-- A transaction leaves the database as it was, or its body succeeded and all its writes are there.
pub transaction_cases :
    {A : Type 0} (body : Exec A) (w : World)
    → ((transaction body w).1.db ≡ w.db)
      ⊎ ((a : A) × (v : World) × (body (counted w) ≡ (ok a, v))
          × ((transaction body w).1.db ≡ v.db))
unfolding transaction
transaction_cases {A} body w = go (w.faults w.calls)
  where
    run :
        (r : Result A) (v : World)
        → body (counted w) ≡ (r, v)
        → ((finish w.db r v).1.db ≡ w.db)
          ⊎ ((a : A) × (u : World) × (body (counted w) ≡ (ok a, u))
              × ((finish w.db r v).1.db ≡ u.db))
    run r v same = elim (finish_cases w.db r v) [
      | inl kept ↦ inl kept
      | inr (a, e, written) ↦ inr (a, v, same ∙ ap (λ x. (x, v)) e, written)
    ]

    go :
        (f : Fault)
        → ((begin f body (counted w)).1.db ≡ w.db)
          ⊎ ((a : A) × (v : World) × (body (counted w) ≡ (ok a, v))
              × ((begin f body (counted w)).1.db ≡ v.db))
    go fine = let (r, v) = body (counted w) in run r v refl
    go (refused e) = inl refl
    go (reply_lost e) = inl refl

-- A transaction that succeeds has run its body to the end and keeps its writes.
pub transaction-ok :
    {A : Type 0} (body : Exec A) (w w' : World) (a : A)
    → transaction body w ≡ (ok a, w')
    → (v : World) × (body (counted w) ≡ (ok a, v)) × (w'.db ≡ v.db)
unfolding transaction
transaction-ok {A} body w w' a h = go (w.faults w.calls) h
  where
    run :
        (r : Result A) (v : World)
        → body (counted w) ≡ (r, v)
        → finish w.db r v ≡ (ok a, w')
        → (v : World) × (body (counted w) ≡ (ok a, v)) × (w'.db ≡ v.db)
    run (err e) v same h = cc
    run (ok b) v same h = (v, ground arith, ground arith)

    go :
        (f : Fault)
        → begin f body (counted w) ≡ (ok a, w')
        → (v : World) × (body (counted w) ≡ (ok a, v)) × (w'.db ≡ v.db)
    go fine h = let (r, v) = body (counted w) in run r v refl h
    go (refused e) h = cc
    go (reply_lost e) h = cc

-- A transaction leaves the database as it was, or what its body writes when it succeeds is there.
pub transaction_either :
    {A : Type 0} (P : Database → Type 0) (body : Exec A) (w : World)
    → ((a : A) (v : World) → body (counted w) ≡ (ok a, v) → P v.db)
    → ((transaction body w).1.db ≡ w.db) ⊎ P (transaction body w).1.db
transaction_either P body w f = elim (transaction_cases body w) [
  | inl kept ↦ inl kept
  | inr (a, v, ran, written) ↦ inr (subst P (sym written) (f a v ran))
]
