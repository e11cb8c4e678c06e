-- ===== src/RunService/Keeping.antt =====
-- internal/application/service/run_service.go: AbortRun and CleanupRun leave a run in a terminal status
-- as it is.
use vuhive_cloud.Common.{
  ◌≡◌, refl, sym, ap, ◌∙◌, inl, inr, true, false, Text, trim_space, is_empty, is_blank, text_eq,
  text_eq_iff, Result, ok, err, Result-cases, ok_injective, arith, Bool-cases, Option-cases,
}
use vuhive_cloud.Common.Time.{Time}
use vuhive_cloud.Run.{TestRun, is_terminal, abort}
use vuhive_cloud.RunService.{Ports, RunService}
use vuhive_cloud.RunService.Operations.{
  save_and_return, stop_job, announce, abort_and_save, abort_run, cleanup_run,
}
use vuhive_cloud.RunService.Laws.{IsLawful}

true-false : true ≡ false → ⊥
true-false h = cc

abort_id : (reason : Text) (now : Time) (run : TestRun) → (abort reason now run).0.id ≡ run.id
unfolding abort
abort_id reason now run = ground arith

module _ {S : Type 0} (ports : Ports S) (service : RunService) (laws : IsLawful ports) where
  -- A run that is not terminal is not the terminal one under `j`.
  pub distinct :
      (j : Text) (s : S) (r run : TestRun)
      → ports.find_run j s ≡ ok r
      → is_terminal r.status ≡ true
      → ports.find_run run.id s ≡ ok run
      → is_terminal run.status ≡ false
      → text_eq run.id j ≡ false
  distinct j s r run h t g u = elim (Bool-cases (text_eq run.id j)) [
    | inl e ↦
        let same = (text_eq_iff run.id j).0 e in
        let one = ok_injective (sym h ∙ ap (λ k. ports.find_run k s) (sym same) ∙ g) in
        absurd (true-false (sym t ∙ ap (λ x. is_terminal x.status) one ∙ u))
    | inr e ↦ e
  ]

  pub stop_job_keeps :
      (run : TestRun) (s : S) (j : Text)
      → ports.find_run j (stop_job ports service run s) ≡ ports.find_run j s
  unfolding stop_job
  stop_job_keeps run s j = elim (Bool-cases (is_empty run.k8s_job_name)) [
    | inl e ↦ rw e refl
    | inr e ↦ rw e (laws.abort_job_keeps run.k8s_job_name run.k8s_namespace s j)
  ]

  announce_keeps :
      (reason : Text) (now : Time) (run : TestRun) (p : S × Result TestRun) (j : Text)
      → ports.find_run j (announce ports service reason now run p).0 ≡ ports.find_run j p.0
  unfolding announce
  announce_keeps reason now run (s, err e) j = refl
  announce_keeps reason now run (s, ok saved) j = elim (Bool-cases service.has_publisher) [
    | inl e ↦ rw e (laws.publish_keeps run.id run.suite_id reason now s j)
    | inr e ↦ rw e refl
  ]

  pub save_keeps :
      (run : TestRun) (s : S) (j : Text)
      → text_eq run.id j ≡ false
      → ports.find_run j (save_and_return ports service run s).0 ≡ ports.find_run j s
  unfolding save_and_return
  save_keeps run s j h = laws.save_other run s j h

  abort_and_save_keeps :
      (reason : Text) (now : Time) (run : TestRun) (s : S) (j : Text)
      → text_eq run.id j ≡ false
      → ports.find_run j (abort_and_save ports service reason now run s).0 ≡ ports.find_run j s
  unfolding abort_and_save
  abort_and_save_keeps reason now run s j h = elim (Option-cases (abort reason now run).1) [
    | inl e ↦
        let run' = (abort reason now run).0 in
        rw (abort_and_save, e)
          (announce_keeps reason now run' (save_and_return ports service run' s) j
            ∙ save_keeps run' s j (rw (abort_id reason now run) h))
    | inr (x, e) ↦ rw (abort_and_save, e) refl
  ]

  pub loaded :
      (k : Text) (s : S) (run : TestRun)
      → ports.find_run k s ≡ ok run
      → ports.find_run run.id s ≡ ok run
  loaded k s run h = ap (λ i. ports.find_run i s) (laws.found_id k s run h) ∙ h

  module _ (j : Text) (s : S) (r : TestRun) (h : ports.find_run j s ≡ ok r)
      (t : is_terminal r.status ≡ true) where
    pub abort_run_keeps :
        (now : Time) (id reason : Text)
        → ports.find_run j (abort_run ports service now id reason s).0 ≡ ports.find_run j s
    unfolding abort_run
    abort_run_keeps now id reason = elim (Bool-cases (is_blank id)) [
      | inl b ↦ rw (abort_run, b) refl
      | inr b ↦ elim (Result-cases (ports.find_run (trim_space id) s)) [
        | inr (x, e) ↦ rw (abort_run, b, e) refl
        | inl (run, e) ↦ elim (Bool-cases (is_terminal run.status)) [
          | inl f ↦ rw (abort_run, b, e, f) refl
          | inr f ↦
              rw (abort_run, b, e, f)
                (abort_and_save_keeps _ now run (stop_job ports service run s) j
                    (distinct j s r run h t (loaded (trim_space id) s run e) f)
                  ∙ stop_job_keeps run s j)
        ]
      ]
    ]

    pub cleanup_run_keeps :
        (now : Time) (id : Text)
        → ports.find_run j (cleanup_run ports service now id s).0 ≡ ports.find_run j s
    unfolding cleanup_run
    cleanup_run_keeps now id = elim (Bool-cases (is_blank id)) [
      | inl b ↦ rw (cleanup_run, b) refl
      | inr b ↦ elim (Result-cases (ports.find_run (trim_space id) s)) [
        | inr (x, e) ↦ rw (cleanup_run, b, e) refl
        | inl (run, e) ↦ elim (Bool-cases (is_terminal run.status)) [
          | inl f ↦ rw (cleanup_run, b, e, f) (stop_job_keeps run s j)
          | inr f ↦
              rw (cleanup_run, b, e, f)
                (abort_and_save_keeps _ now run (stop_job ports service run s) j
                    (distinct j s r run h t (loaded (trim_space id) s run e) f)
                  ∙ stop_job_keeps run s j)
        ]
      ]
    ]
