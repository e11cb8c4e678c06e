-- ===== src/RunService/Storing.antt =====
-- internal/application/service/run_service.go: what is stored when a use case succeeds.
use vuhive_cloud.Common.{
  ◌≡◌, refl, sym, ap, ◌∙◌, subst, inl, inr, Bool, true, false, Option, none, some, Text, codes,
  trim_space, trim_space_idem, is_blank, if◌then◌else◌, Error, validation, terminal_state, Result,
  ok, err, Result-cases, ok_injective, arith, Bool-cases,
}
use vuhive_cloud.Common.Time.{Time}
use vuhive_cloud.Run.{TestRun, aborted, completed, is_terminal, abort}
use vuhive_cloud.RunService.{Ports, RunService}
use vuhive_cloud.RunService.Operations.{
  save_and_return, stop_job, announce, abort_and_save, abort_run, reason_or_default,
}
use vuhive_cloud.RunService.Laws.{IsLawful}

pub err_ok : {e : Error} {x : TestRun} → Result.err e ≡ ok x → ⊥
err_ok h = cc

answered :
    (o : Option Error) {run x : TestRun}
    → elim o as (λ p. Result TestRun) [ none ↦ ok run | some e ↦ err e ] ≡ ok x
    → (o ≡ none) × (run ≡ x)
answered none h = (refl, ok_injective h)
answered (some e) h = absurd (err_ok h)

abort_lem :
    (reason : Text) (now : Time) (run x : TestRun)
    → abort reason now run ≡ (x, none)
    → (x.status ≡ aborted)
      × (x.finished_at ≡ some now)
      × (x.abort_reason ≡ trim_space reason)
      × (x.id ≡ run.id)
unfolding abort
abort_lem reason now run x h = ground arith

abort_accepts :
    (reason : Text) (now : Time) (run : TestRun)
    → is_terminal run.status ≡ false
    → let (x, e) = abort reason now run in
      (e ≡ none)
      × (x.id ≡ run.id)
      × (x.status ≡ aborted)
      × (x.sla_passed ≡ run.sla_passed)
      × (x.metrics ≡ run.metrics)
unfolding abort
abort_accepts reason now run h = ground arith

default_trimmed : trim_space (codes "manual cancellation") ≡ codes "manual cancellation"
unfolding trim_space
default_trimmed = refl

reason_trimmed :
    (reason : Text)
    → trim_space (if is_blank reason then codes "manual cancellation" else trim_space reason)
      ≡ (if is_blank reason then codes "manual cancellation" else trim_space reason)
reason_trimmed reason = elim (Bool-cases (is_blank reason)) [
  | inl e ↦ rw e default_trimmed
  | inr e ↦ rw e (trim_space_idem reason)
]

module _ {S : Type 0} (ports : Ports S) (service : RunService) where
  pub save_success :
      (laws : IsLawful ports) (run : TestRun) (s : S) {x : TestRun}
      → (save_and_return ports service run s).1 ≡ ok x
      → (run ≡ x) × (ports.find_run x.id (save_and_return ports service run s).0 ≡ ok x)
  unfolding save_and_return
  save_success laws run s h =
      let (saved, same) = answered (ports.save_run run s).1 h in
      (
        same,
        subst (λ y. ports.find_run y.id (ports.save_run run s).0 ≡ ok y) same
            (laws.save_found run s saved),
      )

  announce_success :
      (laws : IsLawful ports) (reason : Text) (now : Time) (run : TestRun) (p : S × Result TestRun)
      {x : TestRun}
      → (announce ports service reason now run p).1 ≡ ok x
      → (p.1 ≡ ok x)
        × ((j : Text)
            → ports.find_run j (announce ports service reason now run p).0 ≡ ports.find_run j p.0)
  unfolding announce
  announce_success laws reason now run (s, err e) h = (h, λ j. refl)
  announce_success laws reason now run (s, ok saved) h = published service.has_publisher h
    where
      published :
          (b : Bool) {x : TestRun}
          → (if◌then◌else◌ {A = S × Result TestRun} b
              ((ports.publish_aborted run.id run.suite_id reason now s).0, ok saved)
              (s, ok saved)).1
            ≡ ok x
          → (ok saved ≡ ok x)
            × ((j : Text)
                → ports.find_run j
                    (if◌then◌else◌ {A = S × Result TestRun} b
                      ((ports.publish_aborted run.id run.suite_id reason now s).0, ok saved)
                      (s, ok saved)).0
                  ≡ ports.find_run j s)
      published true k = (k, λ j. laws.publish_keeps run.id run.suite_id reason now s j)
      published false k = (k, λ j. refl)

  abort_and_save_success :
      (laws : IsLawful ports) (reason : Text) (now : Time) (run : TestRun) (s : S) {x : TestRun}
      → (abort_and_save ports service reason now run s).1 ≡ ok x
      → (abort reason now run ≡ (x, none))
        × (ports.find_run x.id (abort_and_save ports service reason now run s).0 ≡ ok x)
  unfolding abort_and_save
  abort_and_save_success laws reason now run s {x} h = saved (abort reason now run) h
    where
      saved :
          (p : TestRun × Option Error) {x : TestRun}
          → (elim p.1 as (λ o. S × Result TestRun) [
            | some e ↦ (s, err e)
            | none ↦ announce ports service reason now p.0 (save_and_return ports service p.0 s)
          ]).1
            ≡ ok x
          → (p ≡ (x, none))
            × (ports.find_run x.id
                  (elim p.1 as (λ o. S × Result TestRun) [
                    | some e ↦ (s, err e)
                    | none ↦
                        announce ports service reason now p.0 (save_and_return ports service p.0 s)
                  ]).0
                ≡ ok x)
      saved (run', some e) k = absurd (err_ok k)
      saved (run', none) {x} k =
          let (first, keeps) =
            announce_success laws reason now run' (save_and_return ports service run' s) k in
          let (same, found) = save_success laws run' s first in
          (ap (λ y. (y, none)) same, keeps x.id ∙ found)

  announce_answer :
      (reason : Text) (now : Time) (run : TestRun) (p : S × Result TestRun)
      → (announce ports service reason now run p).1 ≡ p.1
  unfolding announce
  announce_answer reason now run (s, err e) = refl
  announce_answer reason now run (s, ok saved) = elim (Bool-cases service.has_publisher) [
    | inl e ↦ rw e refl
    | inr e ↦ rw e refl
  ]

  save_answer :
      (run : TestRun) (s : S)
      → (ports.save_run run s).1 ≡ none
      → (save_and_return ports service run s).1 ≡ ok run
  unfolding save_and_return
  save_answer run s h = rw (save_and_return, h) refl

  abort_and_save_answer :
      (reason : Text) (now : Time) (run : TestRun) (s : S)
      → (abort reason now run).1 ≡ none
      → (abort_and_save ports service reason now run s).1
        ≡ (save_and_return ports service (abort reason now run).0 s).1
  unfolding abort_and_save
  abort_and_save_answer reason now run s h =
      rw (abort_and_save, h)
        (announce_answer reason now (abort reason now run).0
          (save_and_return ports service (abort reason now run).0 s))

  -- A successful AbortRun went all the way.
  abort_run_steps :
      (now : Time) (id reason : Text) (s : S) {x : TestRun}
      → (abort_run ports service now id reason s).1 ≡ ok x
      → (run : TestRun) × (ports.find_run (trim_space id) s ≡ ok run)
        × (is_terminal run.status ≡ false)
        × (abort_run ports service now id reason s
            ≡ abort_and_save ports service
                (reason_or_default ports service reason)
                now
                run
                (stop_job ports service run s))
  unfolding abort_run
  abort_run_steps now id reason s {x} h = elim (Bool-cases (is_blank id)) [
    | inl b ↦ absurd (refused validation (rw (abort_run, b) refl))
    | inr b ↦ elim (Result-cases (ports.find_run (trim_space id) s)) [
      | inr (y, e) ↦ absurd (refused y (rw (abort_run, b, e) refl))
      | inl (run, e) ↦ elim (Bool-cases (is_terminal run.status)) [
        | inl f ↦ absurd (refused terminal_state (rw (abort_run, b, e, f) refl))
        | inr f ↦ (run, e, f, rw (abort_run, b, e, f) refl)
      ]
    ]
  ]
    where
      refused : (e : Error) → abort_run ports service now id reason s ≡ (s, err e) → ⊥
      refused e k = err_ok (sym (ap (λ p. p.1) k) ∙ h)

  module _ (laws : IsLawful ports) where
    -- With ports that keep their contracts, when AbortRun succeeds, the run that it returns is stored
    -- under its identifier, it is aborted, with the time of the call and the trimmed reason, or a default
    -- for a blank one, and before the call a run in no terminal status was stored under the identifier.
    pub abort_run_stores :
        (now : Time) (id reason : Text) (s : S) (x : TestRun)
        → (abort_run ports service now id reason s).1 ≡ ok x
        → (ports.find_run x.id (abort_run ports service now id reason s).0 ≡ ok x)
          × (x.status ≡ aborted)
          × (x.finished_at ≡ some now)
          × (x.abort_reason
              ≡ (if is_blank reason then codes "manual cancellation" else trim_space reason))
          × ((run : TestRun) × (ports.find_run x.id s ≡ ok run) × (is_terminal run.status ≡ false))
    abort_run_stores now id reason s x h =
        let (run, found, in_flight, same) = abort_run_steps now id reason s h in
        let (aborts, stored) =
          abort_and_save_success laws _ now run (stop_job ports service run s)
            (sym (ap (λ p. p.1) same) ∙ h) in
        let (status, finish, why, id') = abort_lem _ now run x aborts in
        (
          ap (λ p. ports.find_run x.id p.0) same ∙ stored,
          status,
          finish,
          why ∙ reason_trimmed reason,
          (
            run,
            ap (λ k. ports.find_run k s) (id' ∙ laws.found_id (trim_space id) s run found) ∙ found,
            in_flight,
          ),
        )

    -- AbortRun does not look again at what is stored. With ports that keep their contracts and a database
    -- that takes every write, a run that it loaded in flight overwrites, when it is saved as aborted, the
    -- completed run that another call has stored meanwhile, and with it the metrics and the verdict.
    pub stale_abort_overwrites :
        (now : Time) (reason : Text) (run done : TestRun) (s : S)
        → is_terminal run.status ≡ false
        → ports.find_run run.id s ≡ ok done
        → done.status ≡ completed
        → ((r : TestRun) (s' : S) → (ports.save_run r s').1 ≡ none)
        → (x : TestRun) × (ports.find_run run.id (abort_and_save ports service reason now run s).0
            ≡ ok x)
          × (x.status ≡ aborted)
          × (x.sla_passed ≡ run.sla_passed)
          × (x.metrics ≡ run.metrics)
    stale_abort_overwrites now reason run done s in_flight found finished writes =
        let x = (abort reason now run).0 in
        let (accepted, id, status, verdict, metrics) = abort_accepts reason now run in_flight in
        let (aborts, stored) =
          abort_and_save_success laws reason now run s
            (abort_and_save_answer reason now run s accepted ∙ save_answer x s (writes x s)) in
        (
          x,
          ap (λ k. ports.find_run k (abort_and_save ports service reason now run s).0) (sym id)
              ∙ stored,
          status,
          verdict,
          metrics,
        )
