-- ===== src/Schedule/Syncing.antt =====
-- internal/application/service/schedule_service.go: the rows of the database and the jobs of the cluster.
use vuhive_cloud.Common.{
  ◌≡◌, refl, sym, ap, ◌∙◌, Bool, false, Option, none, some, [], Text, trim_space, is_blank, text_eq,
  text_eq_refl, if◌then◌else◌, Error, Result, ok, err, ok_injective, Option-cases, Result-cases,
  inl, inr, subst,
}
use vuhive_cloud.Common.Time.{Time}
use vuhive_cloud.Schedule.{Schedule}
use vuhive_cloud.Schedule.Service.{
  Ports, JobKeys, CreateScheduleRequest, prepare, settle_job, provision, create_schedule, revise,
  synchronize, update_schedule, delete_schedule, saved_or,
}

-- What the service relies on. `row` is the schedule that the database has under an identifier, `job`
-- the one that the cluster runs a job for; each port changes its own side, and only if it succeeds.
pub record IsLawful {S : Type 0} (ports : Ports S) (row job : S → Text → Option Schedule)
    : Type 0 where
  pub saved_row :
      (x : Schedule) (s : S) (j : Text)
      → (ports.save_schedule x s).1 ≡ none
      → row (ports.save_schedule x s).0 j ≡ (if text_eq x.id j then some x else row s j)
  pub saved_job : (x : Schedule) (s : S) (j : Text) → job (ports.save_schedule x s).0 j ≡ job s j
  pub deleted_row :
      (k : Text) (s : S) (j : Text)
      → (ports.delete_row k s).1 ≡ none
      → row (ports.delete_row k s).0 j ≡ (if text_eq k j then none else row s j)
  pub deleted_job : (k : Text) (s : S) (j : Text) → job (ports.delete_row k s).0 j ≡ job s j
  pub created_job :
      (x : Schedule) (p : Text) (keys : JobKeys) (s : S) (name : Text)
      → (ports.create_cron_job x p keys s).1 ≡ ok name
      → job (ports.create_cron_job x p keys s).0 x.id ≡ some x
  pub not_created :
      (x : Schedule) (p : Text) (keys : JobKeys) (s : S) (e : Error) (j : Text)
      → (ports.create_cron_job x p keys s).1 ≡ err e
      → job (ports.create_cron_job x p keys s).0 j ≡ job s j
  pub created_row :
      (x : Schedule) (p : Text) (keys : JobKeys) (s : S) (j : Text)
      → row (ports.create_cron_job x p keys s).0 j ≡ row s j
  pub updated_job :
      (x : Schedule) (s : S)
      → (ports.update_cron_job x s).1 ≡ none
      → job (ports.update_cron_job x s).0 x.id ≡ some x
  pub kept_job :
      (name namespace : Text) (s : S) (e : Error)
      → (ports.delete_cron_job name namespace s).1 ≡ some e
      → (ports.delete_cron_job name namespace s).0 ≡ s

-- The calls that return a schedule that they stored.
pub data Write : Type 0 where
  creating : Text → CreateScheduleRequest → Write
  updating : Text → Option Text → Option Bool → Write

module _ {S : Type 0} (ports : Ports S) (parses : Text → Bool)
    {row job : S → Text → Option Schedule} (law : IsLawful ports row job) where
  -- Both sides have the schedule.
  abbrev pub InStep : Schedule → S → Type 0
  InStep x s = (row s x.id ≡ some x) × (job s x.id ≡ some x)

  provision-none :
      (x : Schedule) (p : Text) (keys : JobKeys) (s : S)
      → (ports.save_schedule x s).1 ≡ none
      → provision ports parses x p keys s
        ≡ settle_job ports parses x
            (ports.create_cron_job x p keys (ports.save_schedule x s).0).1
            (ports.create_cron_job x p keys (ports.save_schedule x s).0).0
  unfolding provision
  provision-none x p keys s e = rw (provision, e) refl

  provision-some :
      (x : Schedule) (p : Text) (keys : JobKeys) (s : S) (e : Error)
      → (ports.save_schedule x s).1 ≡ some e
      → (provision ports parses x p keys s).1 ≡ err e
  unfolding provision
  provision-some x p keys s e h = rw (provision, h) refl

  saved_here :
      (x : Schedule) (s : S)
      → (ports.save_schedule x s).1 ≡ none
      → row (ports.save_schedule x s).0 x.id ≡ some x
  saved_here x s h = rw (law.saved_row x s x.id h, text_eq_refl x.id) refl

  provisioned :
      (x y : Schedule) (p : Text) (keys : JobKeys) (s : S)
      → (provision ports parses x p keys s).1 ≡ ok y
      → InStep y (provision ports parses x p keys s).0
  unfolding settle_job
  provisioned x y p keys s h = elim (Option-cases (ports.save_schedule x s).1) [
    | inl e ↦
        let s1 = (ports.save_schedule x s).0 in
        let way = provision-none x p keys s e in
        elim (Result-cases (ports.create_cron_job x p keys s1).1) [
          | inl (name, c) ↦
              let s2 = (ports.create_cron_job x p keys s1).0 in
              let done : provision ports parses x p keys s ≡ (s2, ok x) =
                way ∙ ap (λ r. settle_job ports parses x r s2) c in
              let same = ok_injective (sym (ap (λ r. r.1) done) ∙ h) in
              subst (λ z. InStep z (provision ports parses x p keys s).0) same
                (subst (InStep x) (sym (ap (λ r. r.0) done)) (
                  law.created_row x p keys s1 x.id ∙ saved_here x s e,
                  law.created_job x p keys s1 name c,
                ))
          | inr (problem, c) ↦
              let bad =
                ap (λ r. r.1)
                  (way
                    ∙ ap (λ r. settle_job ports parses x r (ports.create_cron_job x p keys s1).0)
                        c) in
              let no : err problem ≡ ok y = sym bad ∙ h in cc
        ]
    | inr (problem, e) ↦
        let no : err problem ≡ ok y = sym (provision-some x p keys s problem e) ∙ h in cc
  ]

  saved_or-none :
      (x y : Schedule) (e : Option Error) → saved_or ports parses x e ≡ ok y → (x ≡ y) × (e ≡ none)
  saved_or-none x y none h = (ok_injective h, refl)
  saved_or-none x y (some e) h = cc

  synchronize-none :
      (x : Schedule) (s : S)
      → (ports.update_cron_job x s).1 ≡ none
      → synchronize ports parses x s ≡ (
        (ports.save_schedule x (ports.update_cron_job x s).0).0,
        saved_or ports parses x (ports.save_schedule x (ports.update_cron_job x s).0).1,
      )
  unfolding synchronize
  synchronize-none x s e = rw (synchronize, e) refl

  synchronize-some :
      (x : Schedule) (s : S) (e : Error)
      → (ports.update_cron_job x s).1 ≡ some e
      → (synchronize ports parses x s).1 ≡ err e
  unfolding synchronize
  synchronize-some x s e h = rw (synchronize, h) refl

  synchronized :
      (x y : Schedule) (s : S)
      → (synchronize ports parses x s).1 ≡ ok y
      → InStep y (synchronize ports parses x s).0
  synchronized x y s h = elim (Option-cases (ports.update_cron_job x s).1) [
    | inl e ↦
        let s1 = (ports.update_cron_job x s).0 in
        let way = synchronize-none x s e in
        let both = saved_or-none x y (ports.save_schedule x s1).1 (sym (ap (λ r. r.1) way) ∙ h) in
        subst (λ z. InStep z (synchronize ports parses x s).0) both.0
          (subst (InStep x) (sym (ap (λ r. r.0) way))
            (saved_here x s1 both.1, law.saved_job x s1 x.id ∙ law.updated_job x s e))
    | inr (problem, e) ↦
        let no : err problem ≡ ok y = sym (synchronize-some x s problem e) ∙ h in cc
  ]

  created-InStep :
      (uuid : Text) (now : Time) (req : CreateScheduleRequest) (s : S) (x : Schedule)
      → (create_schedule ports parses uuid now req s).1 ≡ ok x
      → InStep x (create_schedule ports parses uuid now req s).0
  unfolding create_schedule
  created-InStep uuid now req s x h = elim (Result-cases (prepare ports parses uuid now req s)) [
    | inl (prepared, e) ↦
        let way : create_schedule ports parses uuid now req s
            ≡ provision ports parses prepared.0 prepared.1 prepared.2 s =
          rw (create_schedule, e) refl in
        subst (InStep x) (sym (ap (λ r. r.0) way))
          (provisioned prepared.0 x prepared.1 prepared.2 s (sym (ap (λ r. r.1) way) ∙ h))
    | inr (problem, e) ↦
        let way : create_schedule ports parses uuid now req s ≡ (s, err problem) =
          rw (create_schedule, e) refl in
        let no : err problem ≡ ok x = sym (ap (λ r. r.1) way) ∙ h in cc
  ]

  updated-InStep :
      (now : Time) (id : Text) (cron : Option Text) (active : Option Bool) (s : S) (x : Schedule)
      → (update_schedule ports parses now id cron active s).1 ≡ ok x
      → InStep x (update_schedule ports parses now id cron active s).0
  unfolding update_schedule
  updated-InStep now id cron active s x h =
      elim (Result-cases (revise ports parses now id cron active s)) [
        | inl (z, e) ↦
            let way : update_schedule ports parses now id cron active s
                ≡ synchronize ports parses z s =
              rw (update_schedule, e) refl in
            subst (InStep x) (sym (ap (λ r. r.0) way))
              (synchronized z x s (sym (ap (λ r. r.1) way) ∙ h))
        | inr (problem, e) ↦
            let way : update_schedule ports parses now id cron active s ≡ (s, err problem) =
              rw (update_schedule, e) refl in
            let no : err problem ≡ ok x = sym (ap (λ r. r.1) way) ∙ h in cc
      ]

  abbrev pub write : Write → Time → S → S × Result Schedule
  write (creating uuid req) now s = create_schedule ports parses uuid now req s
  write (updating id cron active) now s = update_schedule ports parses now id cron active s

  -- A schedule that `CreateSchedule` or `UpdateSchedule` returns is the one that the database holds
  -- under its identifier and the one that the cluster runs a job for. Each port changes its own side,
  -- and does so if it succeeds.
  pub returned-InStep :
      (call : Write) (now : Time) (s : S) (x : Schedule)
      → (write call now s).1 ≡ ok x
      → InStep x (write call now s).0
  returned-InStep (creating uuid req) now s x h = created-InStep uuid now req s x h
  returned-InStep (updating id cron active) now s x h = updated-InStep now id cron active s x h

  -- `DeleteSchedule` reports success although the job of the schedule stays: if the identifier is not
  -- blank, the schedule is found, the cluster refuses to delete the job and the database deletes the
  -- row, there is no error, the row is gone, and the cluster runs the same jobs as before. Each port
  -- changes its own side, and a deletion of a job that fails changes nothing.
  pub deleted_without_job :
      (id : Text) (s : S) (x : Schedule) (e : Error)
      → is_blank id ≡ false
      → ports.find_schedule (trim_space id) s ≡ ok x
      → (ports.delete_cron_job x.k8s_cron_job_name [] s).1 ≡ some e
      → (ports.delete_row (trim_space id) s).1 ≡ none
      → ((delete_schedule ports parses id s).1 ≡ none)
        × (row (delete_schedule ports parses id s).0 (trim_space id) ≡ none)
        × ((j : Text) → job (delete_schedule ports parses id s).0 j ≡ job s j)
  unfolding delete_schedule
  deleted_without_job id s x e hi found failed deleted =
      let way : delete_schedule ports parses id s ≡ ports.delete_row (trim_space id) s =
        rw (delete_schedule, hi, found, law.kept_job x.k8s_cron_job_name [] s e failed) refl in
      subst
        (λ r. (r.1 ≡ none) × (row r.0 (trim_space id) ≡ none) × ((j : Text) → job r.0 j ≡ job s j))
        (sym way)
        (
          deleted,
          rw
              (
                law.deleted_row (trim_space id) s (trim_space id) deleted,
                text_eq_refl (trim_space id),
              )
              refl,
          λ j. law.deleted_job (trim_space id) s j,
        )
