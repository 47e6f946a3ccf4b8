-- ===== src/Db/Migrate.antt =====
-- internal/db/migrate.go: the migrations, each in a transaction of its own.
pub mod Once
use Prim.Native.Nat.{Ordering}
use Prim.Native.String.{compare}
use durable_work_flow_engine.Prelude.{
  ℕ, String, Bool, true, false, not, ◌&&◌, Option, none, some, List, [], ◌∷◌, ◌++◌, if◌then◌else◌,
  ◌==◌, any, filter, map, sort_by, is_empty,
}
use durable_work_flow_engine.Domain.{Error, Result, ok, err, wrap, wrap_error, ◌<>◌}
use durable_work_flow_engine.Db.Environment.{Fault, fine, refused, reply_lost}

-- `schema_migrations`, and the scripts that have been executed and committed, oldest first.
pub record Schema : Type 0 where
  pub versions : List String
  pub scripts : List String

pub record DirEntry : Type 0 where
  pub name : String
  pub is_dir : Bool

-- What the calls of one run return: for each file, the lookup of its version, the reading of the file,
-- the start of the transaction, the script, the record of the version, and the commit.
pub record Calls : Type 0 where
  pub acquire : Result (Unit {0})
  pub lock : Result (Unit {0})
  pub create_table : Result (Unit {0})
  pub read_dir : Result (List DirEntry)
  pub look_up : String → Result (Unit {0})
  pub read_file : String → Result (Unit {0})
  pub begin_tx : String → Result (Unit {0})
  pub exec_script : String → Result (Unit {0})
  pub insert_version : String → Result (Unit {0})
  pub commit : String → Fault

abbrev pub Step : Type 0
Step = Schema → Result (Unit {0}) × Schema

-- `if err != nil { return err }`, with a text for some.
abbrev pub after_call : Result (Unit {0}) → Step → Step
after_call (ok u) next s = next s
after_call (err e) next s = (err e, s)

abbrev pub is_applied : String → Schema → Bool
is_applied file s = any (λ v. v == file) s.versions

-- `INSERT ... ON CONFLICT (version) DO NOTHING` with the effects of the script.
abbrev pub applied : String → Schema → Schema
applied file s = record {
  versions = if is_applied file s then s.versions else s.versions ++ file ∷ [];
  scripts = s.scripts ++ file ∷ [];
}

abbrev pub commit_file : String → Fault → Step
commit_file file fine s = (ok tt, applied file s)
commit_file file (refused e) s = (err (wrap ("commit migration " <> file) e), s)
commit_file file (reply_lost e) s = (err (wrap ("commit migration " <> file) e), applied file s)

-- One round of the loop over the files.
unfoldable pub apply_file : Calls → String → Step
apply_file calls file s =
    after_call (calls.look_up file)
      (λ s.
        if is_applied file s
        then (ok tt, s)
        else after_call (wrap_error ("read migration " <> file) (calls.read_file file))
            (after_call (calls.begin_tx file) (
              after_call (wrap_error ("apply migration " <> file) (calls.exec_script file)) (
                after_call (wrap_error ("record migration " <> file) (calls.insert_version file))
                  (commit_file file (calls.commit file)))))
            s)
      s

abbrev pub continue : Result (Unit {0}) × Schema → Step → Result (Unit {0}) × Schema
continue (ok u, s) next = next s
continue (err e, s) next = (err e, s)

unfoldable pub apply_files : Calls → List String → Step
apply_files calls [] s = (ok tt, s)
apply_files calls (file ∷ files) s = continue (apply_file calls file s) (apply_files calls files)

-- `strings.HasSuffix(name, ".sql")`
unfoldable pub has_suffix : String → String → Bool
has_suffix suffix String.[] = is_empty suffix
has_suffix suffix (String.◌∷◌ c s) =
    let rest = has_suffix suffix s in if String.◌∷◌ c s == suffix then true else rest

abbrev pub name_before : String → String → Bool
name_before a b = elim (compare a b) [ Ordering.gt ↦ false | _ ↦ true ]

-- The names in the order of `sort.Strings`.
unfoldable pub migration_files : List DirEntry → List String
migration_files entries =
    sort_by name_before
      (map (λ e. e.name) (filter (λ e. not e.is_dir && has_suffix ".sql" e.name) entries))

abbrev pub after_read_dir : Calls → Result (List DirEntry) → Step
after_read_dir calls (err e) s = (err (wrap "read migrations dir" e), s)
after_read_dir calls (ok entries) s = apply_files calls (migration_files entries) s

unfoldable pub apply_migrations : Calls → Step
apply_migrations calls = after_call calls.acquire (
    after_call (wrap_error "acquire migration lock" calls.lock)
      (after_call calls.create_table (after_read_dir calls calls.read_dir)))
