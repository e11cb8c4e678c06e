-- ===== src/Housekeeping/Safety.antt =====
-- internal/application/service/housekeeping_service.go: what a cycle leaves alone.
use vuhive_cloud.Common.{
  ◌≡◌, refl, ap, ◌∙◌, inl, inr, true, not, ◌&&◌, List, [], ◌∷◌, Text, is_empty, Bool-cases, arith,
}
use vuhive_cloud.Common.Int.{ℤ}
use vuhive_cloud.Common.Time.{Time}
use vuhive_cloud.Retention.{RetentionPolicy}
use vuhive_cloud.Run.{TestRun}
use vuhive_cloud.Artifact.{Artifact}
use vuhive_cloud.Housekeeping.{
  Ports, HousekeepingService, HousekeepingCommand, Failure, each, drop_object, purge_logs,
  purge_report, purge_orphan, purge_binary,
}
use vuhive_cloud.Housekeeping.Cycle.{
  Progress, sweep, logs_step, reports_step, prune_batch, prune_step, orphans_step, binaries_step,
  run_housekeeping, effective_policy,
}

module _ {S : Type 0} (ports : Ports S) (service : HousekeepingService) (cmd : HousekeepingCommand)
    (dry : cmd.dry_run ≡ true) where
  sweep_dry {ℓ} :
      {A : Type ℓ} (f : A → S × List Failure → S × List Failure) (xs : List A) (p : Progress S)
      → sweep ports service cmd f xs p ≡ p
  unfolding sweep
  sweep_dry f xs p = rw (sweep, dry) refl

  logs_dry :
      (now : Time) (policy : RetentionPolicy) (p : Progress S)
      → (logs_step ports service cmd now policy p).state ≡ p.state
  unfolding logs_step sweep
  logs_dry now policy p = ground (arith, dry)

  reports_dry :
      (now : Time) (policy : RetentionPolicy) (p : Progress S)
      → (reports_step ports service cmd now policy p).state ≡ p.state
  unfolding reports_step sweep
  reports_dry now policy p = ground (arith, dry)

  batch_dry :
      (runs : List TestRun) (p : Progress S)
      → (prune_batch ports service cmd runs p).state ≡ p.state
  unfolding prune_batch
  batch_dry [] p = refl
  batch_dry (r ∷ rs) p = rw (prune_batch, dry) refl

  prune_dry :
      (now : Time) (policy : RetentionPolicy) (p : Progress S)
      → (prune_step ports service cmd now policy p).state ≡ p.state
  unfolding prune_step
  prune_dry now policy p = grind (arith, batch_dry)

  orphans_dry :
      (now : Time) (p : Progress S) → (orphans_step ports service cmd now p).state ≡ p.state
  unfolding orphans_step sweep
  orphans_dry now p = ground (arith, dry)

  binaries_dry :
      (now : Time) (policy : RetentionPolicy) (p : Progress S)
      → (binaries_step ports service cmd now policy p).state ≡ p.state
  unfolding binaries_step sweep
  binaries_dry now policy p = ground (arith, dry)

  -- A dry run leaves the database and the bucket as they are.
  pub dry_run_untouched :
      (now : Time) (elapsed : ℤ) (s : S) → (run_housekeeping ports service cmd now elapsed s).0 ≡ s
  unfolding run_housekeeping
  dry_run_untouched now elapsed s =
      binaries_dry now _ _
      ∙ orphans_dry now _
      ∙ prune_dry now _ _
      ∙ reports_dry now _ _
      ∙ logs_dry now _ _

-- An observation of the state, such as the rows of the runs, that no port changes but the deletion of
-- runs in a batch.
pub record IsKept {S V : Type 0} (ports : Ports S) (view : S → V) : Type 0 where
  pub object_keeps : (key : Text) (s : S) → view (ports.delete_object key s).0 ≡ view s
  pub logs_keeps : (id : Text) (s : S) → view (ports.clear_logs_key id s).0 ≡ view s
  pub archive_keeps : (id : Text) (s : S) → view (ports.archive_run id s).0 ≡ view s
  pub artifact_keeps : (id : Text) (s : S) → view (ports.delete_artifact id s).0 ≡ view s
  pub binary_keeps : (id : Text) (s : S) → view (ports.clear_binary_keys id s).0 ≡ view s

module _ {S V : Type 0} (ports : Ports S) (service : HousekeepingService)
    (cmd : HousekeepingCommand) (view : S → V) (kept : IsKept ports view) where
  drop_keeps : (key : Text) (s : S) → view (drop_object ports service key s) ≡ view s
  unfolding drop_object
  drop_keeps key s = elim (Bool-cases (service.has_storage && not (is_empty key))) [
    | inl e ↦ rw (drop_object, e) (kept.object_keeps key s)
    | inr e ↦ rw (drop_object, e) refl
  ]

  each_keeps {ℓ} :
      {A : Type ℓ} (f : A → S × List Failure → S × List Failure)
      → ((x : A) (q : S × List Failure) → view (f x q).0 ≡ view q.0)
      → (xs : List A) (q : S × List Failure) → view (each f xs q).0 ≡ view q.0
  unfolding each
  each_keeps f k [] q = refl
  each_keeps f k (x ∷ xs) q = each_keeps f k xs (f x q) ∙ k x q

  sweep_keeps {ℓ} :
      {A : Type ℓ} (f : A → S × List Failure → S × List Failure)
      → ((x : A) (q : S × List Failure) → view (f x q).0 ≡ view q.0)
      → (xs : List A) (p : Progress S) → view (sweep ports service cmd f xs p).state ≡ view p.state
  unfolding sweep
  sweep_keeps f k xs p = elim (Bool-cases cmd.dry_run) [
    | inl e ↦ rw (sweep, e) refl
    | inr e ↦ rw (sweep, e) (each_keeps f k xs (p.state, p.result.errors))
  ]

  purge_logs_keeps :
      (r : TestRun) (q : S × List Failure) → view (purge_logs ports service r q).0 ≡ view q.0
  unfolding purge_logs
  purge_logs_keeps r (s, fs) = kept.logs_keeps r.id _ ∙ drop_keeps r.s3_logs_key s

  purge_report_keeps :
      (r : TestRun) (q : S × List Failure) → view (purge_report ports service r q).0 ≡ view q.0
  unfolding purge_report
  purge_report_keeps r (s, fs) = kept.archive_keeps r.id _ ∙ drop_keeps r.s3_report_key s

  purge_orphan_keeps :
      (a : Artifact) (q : S × List Failure) → view (purge_orphan ports service a q).0 ≡ view q.0
  unfolding purge_orphan
  purge_orphan_keeps a (s, fs) =
      kept.artifact_keeps a.id _ ∙ drop_keeps a.s3_binary_key _ ∙ drop_keeps a.build_logs_s3_key s

  purge_binary_keeps :
      (a : Artifact) (q : S × List Failure) → view (purge_binary ports service a q).0 ≡ view q.0
  unfolding purge_binary
  purge_binary_keeps a (s, fs) = kept.binary_keeps a.id _ ∙ drop_keeps a.s3_binary_key s

  logs_keep :
      (now : Time) (policy : RetentionPolicy) (p : Progress S)
      → view (logs_step ports service cmd now policy p).state ≡ view p.state
  unfolding logs_step
  logs_keep now policy p = grind (arith, sweep_keeps (purge_logs ports service) purge_logs_keeps)

  reports_keep :
      (now : Time) (policy : RetentionPolicy) (p : Progress S)
      → view (reports_step ports service cmd now policy p).state ≡ view p.state
  unfolding reports_step
  reports_keep now policy p =
      grind (arith, sweep_keeps (purge_report ports service) purge_report_keeps)

  orphans_keep :
      (now : Time) (p : Progress S)
      → view (orphans_step ports service cmd now p).state ≡ view p.state
  unfolding orphans_step
  orphans_keep now p = grind (arith, sweep_keeps (purge_orphan ports service) purge_orphan_keeps)

  binaries_keep :
      (now : Time) (policy : RetentionPolicy) (p : Progress S)
      → view (binaries_step ports service cmd now policy p).state ≡ view p.state
  unfolding binaries_step
  binaries_keep now policy p =
      grind (arith, sweep_keeps (purge_binary ports service) purge_binary_keeps)

  prune_archive_only :
      (now : Time) (policy : RetentionPolicy) (p : Progress S)
      → policy.archive_only ≡ true
      → prune_step ports service cmd now policy p ≡ p
  unfolding prune_step
  prune_archive_only now policy p h = ground (arith, h)

  -- Where the effective policy only archives, a cycle keeps every observation that the ports other than
  -- the deletion of runs in a batch keep: no row of a run is pruned.
  pub archive_only_keeps :
      (now : Time) (elapsed : ℤ) (s : S)
      → (effective_policy ports service cmd s).archive_only ≡ true
      → view (run_housekeeping ports service cmd now elapsed s).0 ≡ view s
  unfolding run_housekeeping
  archive_only_keeps now elapsed s h =
      binaries_keep now _ _
      ∙ orphans_keep now _
      ∙ ap (λ p. view p.state) (prune_archive_only now (effective_policy ports service cmd s) _ h)
      ∙ reports_keep now _ _
      ∙ logs_keep now _ _
