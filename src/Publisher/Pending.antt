-- ===== src/Publisher/Pending.antt =====
-- The events that a round of internal/outbox/publisher.go lists are read from their own rows.
use durable_work_flow_engine.Prelude.{
  ℕ, zero, suc, ◌≡◌, refl, sym, subst, inl, inr, Bool, true, false, Bool-cases, List, [], ◌∷◌,
  arith, All, All-map, All-filter, Distinct, take, insert_by, sort_by, map, ◌==◌, eq_iff,
}
use durable_work_flow_engine.Domain.{document, ok, OutboxEvent}
use durable_work_flow_engine.Db.{World, scan_outbox_event}
use durable_work_flow_engine.Db.Rows.{Database, OutboxRow}
use durable_work_flow_engine.Db.Exec.{Exec, statement, statement-ok, >>=-ok}
use durable_work_flow_engine.Db.Preserves.{Preserves, Preserves-bind, Preserves-pure}
use durable_work_flow_engine.Store.Outbox.{pending_events, list_pending_outbox}
use durable_work_flow_engine.Store.Calls.Closed.{read-preserves}
use durable_work_flow_engine.Store.Consistency.{IsConsistent}
use durable_work_flow_engine.Publisher.Loop.{IsRead}

module _ {A : Type 0} (P : A → Type 0) where
  All-take : (n : ℕ) (xs : List A) → All P xs → All P (take n xs)
  All-take zero xs h = tt
  All-take (suc n) [] h = tt
  All-take (suc n) (x ∷ xs) h = (h.0, All-take n xs h.1)

  All-insert_by :
      (before : A → A → Bool) (x : A) (xs : List A) → P x → All P xs → All P (insert_by before x xs)
  All-insert_by before x [] p h = (p, tt)
  All-insert_by before x (y ∷ ys) p h = elim (Bool-cases (before x y)) [
    | inl first ↦ rw first (p, h)
    | inr later ↦ rw later (h.0, All-insert_by before x ys p h.1)
  ]

  All-sort_by : (before : A → A → Bool) (xs : List A) → All P xs → All P (sort_by before xs)
  All-sort_by before [] h = tt
  All-sort_by before (x ∷ xs) h = All-insert_by before x _ h.0 (All-sort_by before xs h.1)

abbrev SameRow : OutboxRow → OutboxRow → Type 0
SameRow r q = q.id == r.id ≡ true → document q.payload_json ≡ document r.payload_json

-- Where the ids are distinct, an event is read back from its own row only.
same_rows :
    (rows : List OutboxRow)
    → Distinct (λ d e. e.id == d.id) rows
    → All (λ r. All (SameRow r) rows) rows
same_rows [] d = tt
same_rows (r ∷ rows) d = (
  ((λ own. refl), All-map rows (λ q other own. absurd (cc)) d.0),
  all_cons rows rows d.0 (same_rows rows d.1),
)
  where
    all_cons :
        (all some_rows : List OutboxRow)
        → All (λ e. e.id == r.id ≡ false) some_rows
        → All (λ q. All (SameRow q) all) some_rows
        → All (λ q. All (SameRow q) (r ∷ all)) some_rows
    all_cons all [] other h = tt
    all_cons all (q ∷ qs) other h = (
      ((λ own. absurd (ground (arith, other.0, own, eq_iff r.id q.id, eq_iff q.id r.id))), h.0),
      all_cons all qs other.1 h.1,
    )

map-All :
    {A B : Type 0} (P : B → Type 0) (f : A → B) (xs : List A)
    → All (λ x. P (f x)) xs
    → All P (map f xs)
map-All P f [] h = tt
map-All P f (x ∷ xs) h = (h.0, map-All P f xs h.1)

pending_events-IsRead :
    (limit clock : ℕ) (db : Database)
    → Distinct (λ d e. e.id == d.id) db.outbox_events
    → All (IsRead db) (map scan_outbox_event (pending_events limit clock db))
unfolding pending_events scan_outbox_event
pending_events-IsRead limit clock db d = map-All (IsRead db) scan_outbox_event _ (
    All-take _ limit _
      (All-sort_by _ _ _ (All-filter _ _ db.outbox_events (same_rows db.outbox_events d))))

pub list_pending_outbox-Preserves :
    {P : Database → Type 0} (limit : ℕ) → Preserves P (list_pending_outbox limit)
unfolding list_pending_outbox
list_pending_outbox-Preserves limit = Preserves-bind _ _ (read-preserves _) λ rows. Preserves-pure _

pub list_pending_outbox-IsRead :
    (limit : ℕ) (w v : World) (events : List OutboxEvent)
    → IsConsistent w.db
    → list_pending_outbox limit w ≡ (ok events, v)
    → All (IsRead v.db) events
unfolding list_pending_outbox
list_pending_outbox-IsRead limit w v events c h =
    let read : Exec (List OutboxRow) = statement λ w. (ok (pending_events limit w.clock w.db), w) in
    let (rows, w1, selected, rest) = >>=-ok read _ w v events h in
    let ran = statement-ok (λ w. (ok (pending_events limit w.clock w.db), w)) w w1 rows selected in
    let which : events ≡ map scan_outbox_event (pending_events limit w.clock w.db) = ground arith in
    let same : w.db ≡ v.db = ground arith in
    subst (λ x. All (IsRead x) events) same
      (subst (All (IsRead w.db)) (sym which) (pending_events-IsRead limit w.clock w.db c.event_ids))
