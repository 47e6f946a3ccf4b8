-- ===== src/Config/Validity.antt =====
-- Which configurations internal/config/config.go accepts.
use durable_work_flow_engine.Prelude.{
  zero, suc, String, ◌≡◌, ◌↔◌, refl, subst, ◌⊎◌, inl, inr, Bool, true, false, not, List, [], ◌∷◌,
  ◌++◌, if◌then◌else◌, is_empty, ℤ, pos, negsuc,
}
use durable_work_flow_engine.Domain.{Result, ok, err, ◌>>=◌}
use durable_work_flow_engine.Workflow.{is_blank}
use durable_work_flow_engine.Config.{
  Config, Environment, is_positive, problem_if, problems, reported, validate_config,
  parsed_positive, duration_or_default, int64_or_default, load_config, load_api_config,
  load_worker_config, validated,
}

abbrev pub IsGiven : String → Type 0
IsGiven s = is_blank s ≡ false

abbrev pub ArePositive : Config → Type 0
ArePositive c =
    (is_positive c.redis_reclaim_min_idle ≡ true)
    × (is_positive c.redis_reclaim_count ≡ true)
    × (is_positive c.startup_timeout ≡ true)
    × (is_positive c.outbox_poll_interval ≡ true)

abbrev pub AreGiven : Config → Type 0
AreGiven c =
    IsGiven c.service_name
    × IsGiven c.http_addr
    × IsGiven c.database_url
    × IsGiven c.redis_addr
    × IsGiven c.redis_stream
    × IsGiven c.redis_group
    × IsGiven c.redis_consumer

reported-ok : (ps : List String) (u : Unit {0}) → reported ps ≡ ok u → ps ≡ []
reported-ok [] u h = refl
reported-ok (p ∷ ps) u h = cc

-- No problem in a list means none of its last check and none before it.
last_problem :
    (ps : List String) (b : Bool) (text : String)
    → ps ++ problem_if b text ≡ []
    → (b ≡ false) × (ps ≡ [])
last_problem [] true text h = cc
last_problem [] false text h = (refl, refl)
last_problem (p ∷ ps) b text h = cc

only_problem : (b : Bool) (text : String) → problem_if b text ≡ [] → b ≡ false
only_problem true text h = cc
only_problem false text h = refl

not-false : (b : Bool) → not b ≡ false → b ≡ true
not-false true h = refl
not-false false h = cc

-- `Validate` accepts a configuration exactly if its seven texts are not blank and its four numbers
-- are positive.
pub validate_config_iff : (c : Config) → (validate_config c ≡ ok tt) ↔ (AreGiven c × ArePositive c)
unfolding validate_config problems
validate_config_iff c = (
  (λ h.
      let (m, h1) = last_problem _ _ _ (reported-ok (problems c) tt h) in
      let (l, h2) = last_problem _ _ _ h1 in
      let (k, h3) = last_problem _ _ _ h2 in
      let (j, h4) = last_problem _ _ _ h3 in
      let (i, h5) = last_problem _ _ _ h4 in
      let (g, h6) = last_problem _ _ _ h5 in
      let (f, h7) = last_problem _ _ _ h6 in
      let (e, h8) = last_problem _ _ _ h7 in
      let (d, h9) = last_problem _ _ _ h8 in
      let (b, h10) = last_problem _ _ _ h9 in
      (
        (only_problem _ _ h10, b, d, e, f, g, i),
        (not-false _ j, not-false _ k, not-false _ l, not-false _ m),
      )),
  λ h. let ((a, b, d, e, f, g, i), (j, k, l, m)) = h in rw (a, b, d, e, f, g, i, j, k, l, m) refl,
)

same_value : {A : Type 0} {a b : A} → ok a ≡ ok b → a ≡ b
same_value e = cc

parsed_positive-ok :
    (key kind : String) (r : Result ℤ) (z : ℤ)
    → parsed_positive key kind r ≡ ok z
    → is_positive z ≡ true
parsed_positive-ok key kind (err e) z h = cc
parsed_positive-ok key kind (ok (pos zero)) z h = cc
parsed_positive-ok key kind (ok (pos (suc n))) z h =
    subst (λ x. is_positive x ≡ true) (same_value h) refl
parsed_positive-ok key kind (ok (negsuc n)) z h = cc

module _ (env : Environment) (key : String) (fallback z : ℤ)
    (positive : is_positive fallback ≡ true) where
  either_positive :
      (unset : Bool) (kind : String) (r : Result ℤ)
      → (if unset then ok fallback else parsed_positive key kind r) ≡ ok z
      → is_positive z ≡ true
  either_positive true kind r h = subst (λ x. is_positive x ≡ true) (same_value h) positive
  either_positive false kind r h = parsed_positive-ok key kind r z h

  duration_or_default-positive : duration_or_default env key fallback ≡ ok z → is_positive z ≡ true
  unfolding duration_or_default
  duration_or_default-positive = either_positive (is_empty (env.getenv key)) "duration" _

  int64_or_default-positive : int64_or_default env key fallback ≡ ok z → is_positive z ≡ true
  unfolding int64_or_default
  int64_or_default-positive = either_positive (is_empty (env.getenv key)) "integer" _

bind-ok :
    {A B : Type 0} (r : Result A) (f : A → Result B) (b : B)
    → (r >>= f) ≡ ok b
    → (a : A) × (r ≡ ok a) × (f a ≡ ok b)
bind-ok (ok a) f b h = (a, refl, h)
bind-ok (err e) f b h = cc

-- Whatever the environment holds, a configuration that loads has four positive numbers, so that
-- `Validate` can only reject its texts.
pub load_config-ArePositive :
    (env : Environment) (kind : String) (c : Config) → load_config env kind ≡ ok c → ArePositive c
unfolding load_config
load_config-ArePositive env kind c h =
    let (a, is_a, h1) =
      bind-ok (duration_or_default env "REDIS_RECLAIM_MIN_IDLE" (pos 30000000000)) _ c h in
    let (b, is_b, h2) = bind-ok (int64_or_default env "REDIS_RECLAIM_COUNT" (pos 10)) _ c h1 in
    let (d, is_d, h3) =
      bind-ok (duration_or_default env "STARTUP_TIMEOUT" (pos 30000000000)) _ c h2 in
    let (e, is_e, h4) =
      bind-ok (duration_or_default env "OUTBOX_POLL_INTERVAL" (pos 2000000000)) _ c h3 in
    subst ArePositive (same_value h4) (
      duration_or_default-positive env _ _ a refl is_a,
      int64_or_default-positive env _ _ b refl is_b,
      duration_or_default-positive env _ _ d refl is_d,
      duration_or_default-positive env _ _ e refl is_e,
    )

validated-ok : (c d : Config) → validated c ≡ ok d → (c ≡ d) × (validate_config c ≡ ok tt)
validated-ok c d h =
    let (u, accepted, same) = bind-ok (validate_config c) _ d h in (same_value same, accepted)

-- What a program starts with is accepted by `Validate` for both programs: its seven texts are not
-- blank and its four numbers are positive.
pub load-AreGiven :
    (env : Environment) (c : Config)
    → (load_api_config env ≡ ok c) ⊎ (load_worker_config env ≡ ok c)
    → AreGiven c × ArePositive c
unfolding load_api_config load_worker_config
load-AreGiven env c (inl h) =
    let (loaded, is_loaded, h1) = bind-ok (load_config env "api") _ c h in
    let (same, accepted) = validated-ok _ c h1 in
    subst (λ x. AreGiven x × ArePositive x) same ((validate_config_iff _).0 accepted)
load-AreGiven env c (inr h) =
    let (loaded, is_loaded, h1) = bind-ok (load_config env "worker") _ c h in
    let (same, accepted) = validated-ok _ c h1 in
    subst (λ x. AreGiven x × ArePositive x) same ((validate_config_iff _).0 accepted)
