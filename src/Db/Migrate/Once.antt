-- ===== src/Db/Migrate/Once.antt =====
-- Every migration of internal/db/migrate.go is applied at most once.
use durable_work_flow_engine.Prelude.{
  String, ◌≡◌, refl, ap, subst, inl, inr, true, false, Bool-cases, List, [], ◌∷◌, ◌++◌, arith, All,
  any-append_last, any-false, any-append, Distinct, Distinct-append, All-map, ◌==◌, eq_iff, eq_refl,
}
use durable_work_flow_engine.Domain.{◌<>◌, Result, ok, err, wrap_error}
use durable_work_flow_engine.Db.Environment.{Fault, fine, refused, reply_lost}
use durable_work_flow_engine.Db.Migrate.{
  Schema, Calls, Step, DirEntry, after_call, is_applied, applied, commit_file, apply_file, continue,
  apply_files, migration_files, after_read_dir, apply_migrations,
}

-- The versions that are recorded are the scripts that were executed, each of them once.
pub record IsRecorded (s : Schema) : Type 0 where
  pub same : s.versions ≡ s.scripts
  pub once : Distinct (λ a b. b == a) s.scripts

applied-IsRecorded :
    (file : String) (s : Schema)
    → is_applied file s ≡ false
    → IsRecorded s
    → IsRecorded (applied file s)
applied-IsRecorded file s fresh h = record {
  same = rw fresh (ap (λ l. l ++ file ∷ []) h.same);
  once =
      Distinct-append (λ a b. b == a) s.scripts file h.once
        (All-map s.scripts (λ a other. ground (arith, other, eq_iff a file, eq_iff file a))
          (subst (λ l. All (λ v. (v == file) ≡ false) l) h.same
            (any-false (λ v. v == file) s.versions fresh)));
}

-- A predicate that a new script keeps is kept by a whole run.
module _ (P : Schema → Type 0)
    (new : (file : String) (s : Schema)
      → is_applied file s ≡ false
      → P s
      → P (applied file s)) where
  abbrev Keeps : Step → Type 0
  Keeps m = (s : Schema) → P s → P (m s).1

  after_call-Keeps : (r : Result (Unit {0})) (m : Step) → Keeps m → Keeps (after_call r m)
  after_call-Keeps (ok u) m k s h = k s h
  after_call-Keeps (err e) m k s h = h

  commit_file-keeps :
      (file : String) (f : Fault) (s : Schema)
      → is_applied file s ≡ false
      → P s
      → P (commit_file file f s).1
  commit_file-keeps file fine s fresh h = new file s fresh h
  commit_file-keeps file (refused e) s fresh h = h
  commit_file-keeps file (reply_lost e) s fresh h = new file s fresh h

  apply_file-Keeps : (calls : Calls) (file : String) → Keeps (apply_file calls file)
  unfolding apply_file
  apply_file-Keeps calls file = after_call-Keeps (calls.look_up file) _ λ s h.
      elim (Bool-cases (is_applied file s)) [
        | inl done ↦ rw done h
        | inr fresh ↦ rw fresh (unapplied s fresh h)
      ]
    where
      unapplied :
          (s : Schema)
          → is_applied file s ≡ false
          → P s
          → P
              (after_call
                (wrap_error ("read migration " <> file) (calls.read_file file))
                (after_call (calls.begin_tx file) (
                  after_call (wrap_error ("apply migration " <> file) (calls.exec_script file)) (
                    after_call
                      (wrap_error ("record migration " <> file) (calls.insert_version file))
                      (commit_file file (calls.commit file)))))
                s).1
      unapplied s fresh h =
          go (wrap_error ("read migration " <> file) (calls.read_file file)) (calls.begin_tx file)
            (wrap_error ("apply migration " <> file) (calls.exec_script file))
            (wrap_error ("record migration " <> file) (calls.insert_version file))
        where
          go :
              (a b c d : Result (Unit {0}))
              → P
                  (after_call a
                    (after_call b
                      (after_call c (after_call d (commit_file file (calls.commit file)))))
                    s).1
          go (err e) b c d = h
          go (ok u) (err e) c d = h
          go (ok u) (ok v) (err e) d = h
          go (ok u) (ok v) (ok x) (err e) = h
          go (ok u) (ok v) (ok x) (ok y) = commit_file-keeps file (calls.commit file) s fresh h

  apply_files-Keeps : (calls : Calls) (files : List String) → Keeps (apply_files calls files)
  unfolding apply_files
  apply_files-Keeps calls [] s h = h
  apply_files-Keeps calls (file ∷ files) s h =
      go (apply_file calls file s) (apply_file-Keeps calls file s h)
        λ t k. apply_files-Keeps calls files t k
    where
      go :
          (r : Result (Unit {0}) × Schema)
          → P r.1
          → ((t : Schema) → P t → P (apply_files calls files t).1)
          → P (continue r (apply_files calls files)).1
      go (ok u, t) k rest = rest t k
      go (err e, t) k rest = k

  apply_migrations-Keeps : (calls : Calls) → Keeps (apply_migrations calls)
  unfolding apply_migrations
  apply_migrations-Keeps calls =
      after_call-Keeps calls.acquire _
        (after_call-Keeps _ _ (after_call-Keeps calls.create_table _ (listed calls.read_dir)))
    where
      listed : (r : Result (List DirEntry)) → Keeps (after_read_dir calls r)
      listed (err e) s h = h
      listed (ok entries) s h = apply_files-Keeps calls (migration_files entries) s h

-- A run of the migrations keeps this, whatever its calls return: the recorded versions are the
-- scripts that were executed, and none was executed twice.
pub apply_migrations-IsRecorded :
    (calls : Calls) (s : Schema) → IsRecorded s → IsRecorded (apply_migrations calls s).1
apply_migrations-IsRecorded = apply_migrations-Keeps IsRecorded applied-IsRecorded

-- What is applied stays applied.
stays_applied :
    (v file : String) (s : Schema) → is_applied v s ≡ true → is_applied v (applied file s) ≡ true
stays_applied v file s h = elim (Bool-cases (is_applied file s)) [
  | inl done ↦ rw done h
  | inr fresh ↦ rw fresh (any-append (λ x. x == v) s.versions (file ∷ []) h)
]

after_call-ok :
    (r : Result (Unit {0})) (m : Step) (s t : Schema) (u : Unit {0})
    → after_call r m s ≡ (ok u, t)
    → (r ≡ ok tt) × (m s ≡ (ok u, t))
after_call-ok (ok v) m s t u h = (refl, h)
after_call-ok (err e) m s t u h = cc

commit_file-ok :
    (file : String) (f : Fault) (s t : Schema) (u : Unit {0})
    → is_applied file s ≡ false
    → commit_file file f s ≡ (ok u, t)
    → is_applied file t ≡ true
commit_file-ok file fine s t u fresh h =
    subst (λ x. is_applied file x.1 ≡ true) h
      (rw fresh (any-append_last (λ v. v == file) s.versions file (eq_refl file)))
commit_file-ok file (refused e) s t u fresh h = cc
commit_file-ok file (reply_lost e) s t u fresh h = cc

-- A file that is done with success is applied.
apply_file-ok :
    (calls : Calls) (file : String) (s t : Schema) (u : Unit {0})
    → apply_file calls file s ≡ (ok u, t)
    → is_applied file t ≡ true
unfolding apply_file
apply_file-ok calls file s t u h = elim (Bool-cases (is_applied file s)) [
  | inl done ↦
      let ran = rw done at (after_call-ok (calls.look_up file) _ s t u h).1 in
      subst (λ x. is_applied file x.1 ≡ true) ran done
  | inr fresh ↦
      let ran = rw fresh at (after_call-ok (calls.look_up file) _ s t u h).1 in
      let (a, h1) =
        after_call-ok (wrap_error ("read migration " <> file) (calls.read_file file)) _ s t u ran in
      let (b, h2) = after_call-ok (calls.begin_tx file) _ s t u h1 in
      let (c, h3) =
        after_call-ok (wrap_error ("apply migration " <> file) (calls.exec_script file)) _ s t u
          h2 in
      let (d, h4) =
        after_call-ok (wrap_error ("record migration " <> file) (calls.insert_version file)) _ s t u
          h3 in
      commit_file-ok file (calls.commit file) s t u fresh h4
]

abbrev pub AllApplied : List String → Schema → Type 0
AllApplied files s = All (λ f. is_applied f s ≡ true) files

apply_files-ok :
    (calls : Calls) (files : List String) (s t : Schema) (u : Unit {0})
    → apply_files calls files s ≡ (ok u, t)
    → AllApplied files t
unfolding apply_files
apply_files-ok calls [] s t u h = tt
apply_files-ok calls (file ∷ files) s t u h =
    go (apply_file calls file s) refl h λ a k. apply_files-ok calls files a t u k
  where
    go :
        (r : Result (Unit {0}) × Schema)
        → apply_file calls file s ≡ r
        → continue r (apply_files calls files) ≡ (ok u, t)
        → ((a : Schema) → apply_files calls files a ≡ (ok u, t) → AllApplied files t)
        → (is_applied file t ≡ true) × AllApplied files t
    go (ok v, a) ran k rest = (
      subst (λ x. is_applied file x.1 ≡ true) k
          (apply_files-Keeps (λ x. is_applied file x ≡ true) (λ f x fresh. stays_applied file f x)
            calls files a (apply_file-ok calls file s a v ran)),
      rest a k,
    )
    go (err e, a) ran k rest = cc

-- Files that are all applied need nothing but their lookups.
apply_files-again :
    (calls : Calls) (files : List String) (s : Schema)
    → All (λ f. calls.look_up f ≡ ok tt) files
    → AllApplied files s
    → apply_files calls files s ≡ (ok tt, s)
unfolding apply_files apply_file
apply_files-again calls [] s found done = refl
apply_files-again calls (file ∷ files) s found done =
    rw (found.0, done.0) (apply_files-again calls files s found.1 done.1)

-- After a run with success every migration of the directory is recorded, and a second run over the
-- same directory, with any other calls than the first one had, changes nothing and succeeds, as long
-- as its connection, its lock, its table, its listing and its lookups succeed.
pub apply_migrations-again :
    (calls again : Calls) (entries : List DirEntry) (s t : Schema) (u : Unit {0})
    → calls.read_dir ≡ ok entries
    → apply_migrations calls s ≡ (ok u, t)
    → again.read_dir ≡ ok entries
    → again.acquire ≡ ok tt
    → again.lock ≡ ok tt
    → again.create_table ≡ ok tt
    → All (λ f. again.look_up f ≡ ok tt) (migration_files entries)
    → AllApplied (migration_files entries) t × (apply_migrations again t ≡ (ok tt, t))
unfolding apply_migrations apply_files apply_file
apply_migrations-again calls again entries s t u dir ran dir' acquired locked created found =
    let (a, h1) = after_call-ok calls.acquire _ s t u ran in
    let (b, h2) = after_call-ok (wrap_error "acquire migration lock" calls.lock) _ s t u h1 in
    let (c, h3) = after_call-ok calls.create_table _ s t u h2 in
    let files : apply_files calls (migration_files entries) s ≡ (ok u, t) =
      subst (λ r. after_read_dir calls r s ≡ (ok u, t)) dir h3 in
    let done = apply_files-ok calls (migration_files entries) s t u files in
    (
      done,
      rw (acquired, locked, created, dir')
          (apply_files-again again (migration_files entries) t found done),
    )
