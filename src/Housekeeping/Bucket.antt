-- ===== src/Housekeeping/Bucket.antt =====
-- internal/application/service/housekeeping_service.go, ConfigureBucketLifecycle and the worker, with
-- the rules as internal/adapters/outbound/s3/adapter.go passes them on.
use vuhive_cloud.Common.{
  ◌≡◌, subst, false, ok, ok_injective, then_ok, reject_if, validation, trim_space, is_blank, ◌++◌,
  ◌^◌, ◌-◌, ◌*◌, Bool, true, ◌&&◌, none, Option, List, [], ◌∷◌, Text, codes, is_some, if◌then◌else◌,
  Error,
}
use vuhive_cloud.Common.Int.{ℤ, pos, ltb_ℤ, leb_ℤ}
use vuhive_cloud.Common.Time.{Time, Duration, hour}
use vuhive_cloud.Retention.{RetentionPolicy}
use vuhive_cloud.Secrets.Template.{strip_prefix}
use vuhive_cloud.Storage.{key_summary_report, key_configuration}
use vuhive_cloud.Housekeeping.{Ports, HousekeepingService}
use vuhive_cloud.Housekeeping.Cycle.{run_housekeeping}

pub record LifecycleRule : Type 0 where
  pub id : Text
  pub prefix : Text
  pub expiration_days : ℤ
  pub enabled : Bool

unfoldable pub bucket_rules : RetentionPolicy → List LifecycleRule
bucket_rules p =
    record {
      id = codes "vuhive-runs-logs-expiration";
      prefix = codes "runs/";
      expiration_days = p.logs_ttl_days;
      enabled = true;
    }
    ∷ record {
      id = codes "vuhive-suites-sources-expiration";
      prefix = codes "suites/";
      expiration_days = p.sources_ttl_days;
      enabled = true;
    }
    ∷ []

-- The port writes the rules of the bucket.
unfoldable pub configure_bucket_lifecycle :
    {S : Type 0}
    → (List LifecycleRule → S → S × Option Error)
    → HousekeepingService
    → S
    → S × Option Error
configure_bucket_lifecycle put service s =
    if service.has_storage then put (bucket_rules service.global_policy) s else (s, none)

-- The days as the adapter passes them on, an `int32`.
unfoldable pub rule_days : ℤ → ℤ
rule_days days =
    if ltb_ℤ (pos 0) days && leb_ℤ days (pos (2 ^ 31 - 1))
    then days
    else if ltb_ℤ (pos (2 ^ 31 - 1)) days
    then pos (2 ^ 31 - 1)
    else pos 0

abbrev pub worker_interval : Duration → Duration
worker_interval d = if leb_ℤ d (pos 0) then pos (6 * hour) else d

-- The cycles of `StartBackgroundWorker`, one half a minute after its start and one for each tick, with
-- the instants at which they run and what they take. The command is empty.
unfoldable pub worker_cycles :
    {S : Type 0} → Ports S → HousekeepingService → List (Time × ℤ) → S → S
worker_cycles ports service [] s = s
worker_cycles ports service ((now, elapsed) ∷ rest) s =
    worker_cycles ports service rest
      (run_housekeeping ports service (record { suite_id = none; dry_run = false }) now elapsed s).0

report_key : (id k : Text) → key_summary_report id ≡ ok k → (t : Text) × (codes "runs/" ++ t ≡ k)
unfolding key_summary_report
report_key id k h = (
  trim_space id ++ codes "/summary.json",
  ok_injective (then_ok (reject_if (is_blank id) validation) _ k h).1,
)

configuration_key :
    (suite config k : Text)
    → key_configuration suite config ≡ ok k
    → (t : Text) × (codes "suites/" ++ t ≡ k)
unfolding key_configuration
configuration_key suite config k h =
    let inner = (then_ok (reject_if (is_blank suite) validation) _ k h).1 in
    (
      trim_space suite ++ (codes "/configs/" ++ (trim_space config ++ codes ".yaml")),
      ok_injective (then_ok (reject_if (is_blank config) validation) _ k inner).1,
    )

-- The storage reads the rules: `covers` says whether a rule applies to a key.
module _ (covers : LifecycleRule → Text → Bool) where
  -- The days of the rules that apply to a key, after which the storage deletes the object.
  unfoldable pub expirations : Text → List LifecycleRule → List ℤ
  expirations key [] = []
  expirations key (rule ∷ rules) =
      let rest = expirations key rules in
      if covers rule key then rule_days rule.expiration_days ∷ rest else rest

  -- An enabled rule applies to the keys that start with its prefix, and to no others.
  abbrev pub ByPrefix : Type 0
  ByPrefix =
      (rule : LifecycleRule) (key : Text)
      → covers rule key ≡ (rule.enabled && is_some (strip_prefix rule.prefix key))

  reports_covered :
      (p : RetentionPolicy) (t : Text)
      → ByPrefix
      → expirations (codes "runs/" ++ t) (bucket_rules p) ≡ rule_days p.logs_ttl_days ∷ []
  unfolding expirations bucket_rules strip_prefix
  reports_covered p t by_prefix = simp by_prefix

  suites_covered :
      (p : RetentionPolicy) (t : Text)
      → ByPrefix
      → expirations (codes "suites/" ++ t) (bucket_rules p) ≡ rule_days p.sources_ttl_days ∷ []
  unfolding expirations bucket_rules strip_prefix
  suites_covered p t by_prefix = simp by_prefix

  -- The rules of the bucket cover more than the objects that they are named after: the storage deletes
  -- the summary report of any run after the days that the policy keeps logs, whatever it says of
  -- reports, and the configurations of any suite after the days that it keeps sources. The storage
  -- applies an enabled rule to the keys that start with its prefix, and to no others.
  pub rules_cover_too_much :
      (p : RetentionPolicy) (run_id suite_id config_id report config : Text)
      → ByPrefix
      → key_summary_report run_id ≡ ok report
      → key_configuration suite_id config_id ≡ ok config
      → (expirations report (bucket_rules p) ≡ rule_days p.logs_ttl_days ∷ [])
        × (expirations config (bucket_rules p) ≡ rule_days p.sources_ttl_days ∷ [])
  rules_cover_too_much p run_id suite_id config_id report config by_prefix hr hc =
      let (t, r) = report_key run_id report hr in
      let (u, c) = configuration_key suite_id config_id config hc in
      (
        subst (λ k. expirations k (bucket_rules p) ≡ rule_days p.logs_ttl_days ∷ []) r
            (reports_covered p t by_prefix),
        subst (λ k. expirations k (bucket_rules p) ≡ rule_days p.sources_ttl_days ∷ []) c
            (suites_covered p u by_prefix),
      )
