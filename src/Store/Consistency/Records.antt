-- ===== src/Store/Consistency/Records.antt =====
-- The operations on idempotency records keep the consistency.
use durable_work_flow_engine.Prelude.{
  String, ◌≡◌, refl, Option, none, some, Bool-cases, inl, inr, any-find,
}
use durable_work_flow_engine.Domain.{RawMessage, document}
use durable_work_flow_engine.Db.{World}
use durable_work_flow_engine.Db.Rows.{IdempotencyRow}
use durable_work_flow_engine.Db.Preserves.{
  Preserves, Preserves-statement, Preserves-bind, Preserves-if, Preserves-pure, Preserves-raise,
  Preserves-lift,
}
use durable_work_flow_engine.Store.Sql.{has_task, normalize_json}
use durable_work_flow_engine.Store.Idempotency.{
  has_key, find_record, insert_where_absent, try_insert_record, select_record,
  begin_idempotent_task, update_record, complete_idempotent_task, release_idempotent_task,
  is_own_record, is_releasable, completed_record,
}
use durable_work_flow_engine.Store.Consistency.Invariant.{IsConsistent}
use durable_work_flow_engine.Store.Consistency.Tables.{
  set_record-IsConsistent, delete_records-IsConsistent,
}
use durable_work_flow_engine.Store.Consistency.Additions.{add_record-IsConsistent}

insert_where_absent-keeps :
    (found : Option IdempotencyRow) (h k owner : String) (w : World)
    → find_record h k w.db ≡ found
    → IsConsistent w.db
    → IsConsistent (insert_where_absent found h k owner w).1.db
unfolding insert_where_absent
insert_where_absent-keeps (some row) h k owner w e c = c
insert_where_absent-keeps none h k owner w e c = elim (Bool-cases (has_task owner w.db)) [
  | inr missing ↦ rw missing c
  | inl there ↦
      rw there
        (add_record-IsConsistent w.db c _ (any-find (has_key h k) w.db.idempotency_records e) there)
]

try_insert_record-preserves :
    (h k owner : String) → Preserves IsConsistent (try_insert_record h k owner)
unfolding try_insert_record
try_insert_record-preserves h k owner =
    Preserves-statement _
      record { at = λ w c. insert_where_absent-keeps (find_record h k w.db) h k owner w refl c }

pub begin_idempotent_task-preserves :
    (h k owner : String) → Preserves IsConsistent (begin_idempotent_task h k owner)
unfolding begin_idempotent_task select_record
begin_idempotent_task-preserves h k owner =
    Preserves-bind _ _ (try_insert_record-preserves h k owner) λ inserted.
      Preserves-if inserted _ _ (Preserves-pure _) (
        Preserves-bind _ _ (Preserves-statement _ record { at = λ w c. c }) λ row. Preserves-lift _)

update_record-preserves :
    (h k owner : String) (response : RawMessage)
    → Preserves IsConsistent (update_record h k owner response)
unfolding update_record
update_record-preserves h k owner (document j) = Preserves-statement _ record {
  at = λ w c.
      set_record-IsConsistent w.db c (is_own_record h k owner) (completed_record j w.clock)
        (λ r. refl) (λ r. refl) (λ r. refl);
}
update_record-preserves h k owner _ = Preserves-statement _ record { at = λ w c. c }

pub complete_idempotent_task-preserves :
    (h k owner : String) (response : RawMessage)
    → Preserves IsConsistent (complete_idempotent_task h k owner response)
unfolding complete_idempotent_task
complete_idempotent_task-preserves h k owner response =
    Preserves-bind _ _ (update_record-preserves h k owner (normalize_json response))
      λ affected. Preserves-if affected _ _ (Preserves-pure _) (Preserves-raise _)

pub release_idempotent_task-preserves :
    (h k owner : String) → Preserves IsConsistent (release_idempotent_task h k owner)
unfolding release_idempotent_task
release_idempotent_task-preserves h k owner =
    Preserves-statement _
      record { at = λ w c. delete_records-IsConsistent w.db c (is_releasable h k owner) }
