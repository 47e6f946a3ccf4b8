-- ===== src/System/Acknowledging.antt =====
-- `XACK` of internal/queue/redis_streams.go forgets no task, where the task of the entry is settled.
use durable_work_flow_engine.Prelude.{
  ℕ, String, ◌≡◌, refl, ap, sym, subst, ◌∙◌, ◌⊎◌, inl, inr, Bool, true, false, List, [], ◌∷◌, arith,
  length, nat_eq, All, Any, Distinct, ◌==◌, eq_iff, ◌<◌,
}
use durable_work_flow_engine.Domain.{ok, TaskMessage, StreamEntry}
use durable_work_flow_engine.Db.{Pipe}
use durable_work_flow_engine.Db.Rows.{Database, TaskRow}
use durable_work_flow_engine.Queue.{decode_task_message}
use durable_work_flow_engine.System.Coverage.{
  IsOpen, IsFor, IsCovered, ended, retrying, announced, queued, NoneLost, IsNumberedPipe,
}
use durable_work_flow_engine.System.Settling.{IsSettled, Settled}

abbrev pub IsIn : StreamEntry → Pipe → Type 0
IsIn e q = Any (λ x. x ≡ e) q.0

abbrev pub acked_too : StreamEntry → Pipe → Pipe
acked_too e q = (q.0, e.id ∷ q.1)

abbrev pub same_id : StreamEntry → StreamEntry → Bool
same_id x y = nat_eq y.id x.id

abbrev Serves : List ℕ → String → StreamEntry → Type 0
Serves acked id x = IsOpen acked x × IsFor id x

-- Another entry stays open.
pub acked_too-IsOpen :
    (e x : StreamEntry) (acked : List ℕ)
    → nat_eq x.id e.id ≡ false
    → IsOpen acked x
    → IsOpen (e.id ∷ acked) x
acked_too-IsOpen e x acked other h = rw (other, h) refl

others_serve :
    (e : StreamEntry) (acked : List ℕ) (id : String) (xs : List StreamEntry)
    → All (λ x. nat_eq x.id e.id ≡ false) xs
    → Any (Serves acked id) xs
    → Any (Serves (e.id ∷ acked) id) xs
others_serve e acked id [] other s = absurd s
others_serve e acked id (x ∷ xs) other (inl s) = inl (acked_too-IsOpen e x acked other.0 s.0, s.1)
others_serve e acked id (x ∷ xs) other (inr s) = inr (others_serve e acked id xs other.1 s)

pub All-at :
    {A : Type 0} (P : A → Type 0) (xs : List A) (y : A) → All P xs → Any (λ x. x ≡ y) xs → P y
All-at P [] y h i = absurd i
All-at P (x ∷ xs) y h (inl same) = subst P same h.0
All-at P (x ∷ xs) y h (inr i) = All-at P xs y h.1 i

-- Where an entry is acknowledged, another one serves the task, or the entry was for the task.
acked_too-Serves :
    (e : StreamEntry) (acked : List ℕ) (id : String) (xs : List StreamEntry)
    → Distinct same_id xs
    → Any (λ x. x ≡ e) xs
    → Any (Serves acked id) xs
    → Any (Serves (e.id ∷ acked) id) xs ⊎ IsFor id e
acked_too-Serves e acked id [] d i s = absurd s
acked_too-Serves e acked id (x ∷ xs) d (inl same) (inl s) = inr (subst (IsFor id) same s.1)
acked_too-Serves e acked id (x ∷ xs) d (inr i) (inl s) = inl (
    inl (
      acked_too-IsOpen e x acked (ground (arith, All-at (λ y. nat_eq y.id x.id ≡ false) xs e d.0 i))
          s.0,
      s.1,
    ))
acked_too-Serves e acked id (x ∷ xs) d (inl same) (inr s) = inl (
    inr
      (others_serve e acked id xs (subst (λ z. All (λ y. nat_eq y.id z.id ≡ false) xs) same d.0) s))
acked_too-Serves e acked id (x ∷ xs) d (inr i) (inr s) =
    elim (acked_too-Serves e acked id xs d.1 i s) [ inl k ↦ inl (inr k) | inr own ↦ inr own ]

settled-IsCovered :
    (t : TaskRow) (db : Database) (q : Pipe) → IsSettled t → IsCovered db.outbox_events q t
settled-IsCovered t db q (inl done) = ended done
settled-IsCovered t db q (inr later) = retrying later.0 later.1

same_message : {m n : TaskMessage} → ok m ≡ ok n → m ≡ n
same_message e = cc

acked-IsCovered :
    (e : StreamEntry) (m : TaskMessage) (db : Database) (q : Pipe) (t : TaskRow)
    → Distinct same_id q.0
    → IsIn e q
    → decode_task_message e ≡ ok m
    → (t.id == m.task_id ≡ true → IsSettled t)
    → IsCovered db.outbox_events q t
    → IsCovered db.outbox_events (acked_too e q) t
acked-IsCovered e m db q t d i decoded settled (ended k) = ended k
acked-IsCovered e m db q t d i decoded settled (retrying p n) = retrying p n
acked-IsCovered e m db q t d i decoded settled (announced a) = announced a
acked-IsCovered e m db q t d i decoded settled (queued o) =
    elim (acked_too-Serves e q.1 t.id q.0 d i o) [
      | inl other ↦ queued other
      | inr (n, is_n, own) ↦
          let same : n ≡ m = same_message (sym is_n ∙ decoded) in
          settled-IsCovered t db _
            (settled ((eq_iff t.id m.task_id).1 (sym own ∙ ap (λ x. x.task_id) same)))
    ]

-- `XACK` of the entry of a settled task.
pub acked-NoneLost :
    (e : StreamEntry) (m : TaskMessage) (db : Database) (q : Pipe)
    → Distinct same_id q.0
    → IsIn e q
    → decode_task_message e ≡ ok m
    → Settled db m.task_id
    → NoneLost db q
    → NoneLost db (acked_too e q)
acked-NoneLost e m db q d i decoded settled h = go db.task_instances settled h
  where
    go :
        (ts : List TaskRow)
        → All (λ t. t.id == m.task_id ≡ true → IsSettled t) ts
        → All (IsCovered db.outbox_events q) ts
        → All (IsCovered db.outbox_events (acked_too e q)) ts
    go [] s c = tt
    go (t ∷ ts) s c = (acked-IsCovered e m db q t d i decoded s.0 c.0, go ts s.1 c.1)

pub acked-IsNumberedPipe :
    (e : StreamEntry) (q : Pipe) → IsIn e q → IsNumberedPipe q → IsNumberedPipe (acked_too e q)
acked-IsNumberedPipe e q i h = record {
  below = h.below;
  distinct = h.distinct;
  acked_below = (All-at (λ x. x.id < length q.0) q.0 e h.below i, h.acked_below);
}
