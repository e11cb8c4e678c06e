-- ===== src/Retention/Merging.antt =====
-- internal/domain/model/retention.go: policies that override one another.
use vuhive_cloud.Common.{◌≡◌, ◌⊎◌, ◌↔◌, Bool, true, none, some, arith, validation, if◌then◌else◌}
use vuhive_cloud.Common.Int.{ℤ, pos, ◌≤ℤ◌, ◌+ℤ◌}
use vuhive_cloud.Retention.{RetentionPolicy, validate, merge, overriding}

merged_runs :
    (p q : RetentionPolicy) → pos 1 ≤ℤ q.runs_ttl_days → (merge p q).runs_ttl_days ≡ q.runs_ttl_days
unfolding merge
merged_runs p q h = ground arith

merged_reports :
    (p q : RetentionPolicy)
    → q.reports_ttl_days ≡ pos 0
    → (merge p q).reports_ttl_days ≡ p.reports_ttl_days
unfolding merge
merged_reports p q h = rw h

refuse :
    (m : RetentionPolicy) (r s : ℤ)
    → m.runs_ttl_days ≡ r
    → m.reports_ttl_days ≡ s
    → pos 1 ≤ℤ r
    → r +ℤ pos 1 ≤ℤ s
    → validate m ≡ some validation
unfolding validate ◌+ℤ◌
refuse m r s er es hr hs = ground arith

-- A policy that makes sense: no window is negative, and if both runs and reports have a window then
-- the runs stay at least as long as their reports.
pub record IsSensible (p : RetentionPolicy) : Type 0 where
  pub logs : pos 0 ≤ℤ p.logs_ttl_days
  pub reports : pos 0 ≤ℤ p.reports_ttl_days
  pub sources : pos 0 ≤ℤ p.sources_ttl_days
  pub binaries : pos 0 ≤ℤ p.binaries_ttl_days
  pub runs : pos 0 ≤ℤ p.runs_ttl_days
  pub runs_outlast :
      (p.runs_ttl_days ≤ℤ pos 0)
      ⊎ ((p.reports_ttl_days ≤ℤ pos 0) ⊎ (p.reports_ttl_days ≤ℤ p.runs_ttl_days))

-- `Validate` accepts a policy just when it makes sense: no window is negative, and if both runs and
-- reports have a window then the runs stay at least as long as their reports.
pub validate_iff : (p : RetentionPolicy) → (validate p ≡ none) ↔ IsSensible p
unfolding validate
validate_iff p = (λ h. ground arith, λ v. ground arith)

overriding_assoc : (a b c : ℤ) → overriding (overriding a b) c ≡ overriding a (overriding b c)
overriding_assoc a b c = ground arith

overriding_idem : (a : ℤ) → overriding a a ≡ a
overriding_idem a = ground arith

either_assoc :
    (a b c : Bool)
    → (if c then true else (if b then true else a)) ≡ (if (if c then true else b) then true else a)
either_assoc a b c = ground arith

either_idem : (a : Bool) → (if a then true else a) ≡ a
either_idem a = ground arith

-- Overrides chain: applying two overrides in turn is applying their merge. A policy that overrides
-- itself stays as it is.
pub merge_laws :
    (p q r : RetentionPolicy) → (merge (merge p q) r ≡ merge p (merge q r)) × (merge p p ≡ p)
unfolding merge
merge_laws p q r = (
  λ i. record {
    logs_ttl_days = overriding_assoc p.logs_ttl_days q.logs_ttl_days r.logs_ttl_days i;
    reports_ttl_days = overriding_assoc p.reports_ttl_days q.reports_ttl_days r.reports_ttl_days i;
    sources_ttl_days = overriding_assoc p.sources_ttl_days q.sources_ttl_days r.sources_ttl_days i;
    binaries_ttl_days =
        overriding_assoc p.binaries_ttl_days q.binaries_ttl_days r.binaries_ttl_days i;
    runs_ttl_days = overriding_assoc p.runs_ttl_days q.runs_ttl_days r.runs_ttl_days i;
    archive_only = either_assoc p.archive_only q.archive_only r.archive_only i;
  },
  λ i. record {
    logs_ttl_days = overriding_idem p.logs_ttl_days i;
    reports_ttl_days = overriding_idem p.reports_ttl_days i;
    sources_ttl_days = overriding_idem p.sources_ttl_days i;
    binaries_ttl_days = overriding_idem p.binaries_ttl_days i;
    runs_ttl_days = overriding_idem p.runs_ttl_days i;
    archive_only = either_idem p.archive_only i;
  },
)

-- An override that `Validate` accepts can make a policy that it accepts into one that it refuses: so
-- it is whenever the override keeps runs for a shorter time than the base keeps reports, and says
-- nothing of reports.
pub merge_breaks :
    (p q : RetentionPolicy)
    → validate p ≡ none
    → validate q ≡ none
    → q.reports_ttl_days ≡ pos 0
    → pos 1 ≤ℤ q.runs_ttl_days
    → q.runs_ttl_days +ℤ pos 1 ≤ℤ p.reports_ttl_days
    → validate (merge p q) ≡ some validation
merge_breaks p q vp vq e hq hp =
    refuse (merge p q) q.runs_ttl_days p.reports_ttl_days (merged_runs p q hq)
      (merged_reports p q e) hq hp
