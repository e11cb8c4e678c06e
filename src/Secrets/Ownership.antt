-- ===== src/Secrets/Ownership.antt =====
-- internal/application/service/secret_service.go: a suite and the secrets of another.
use vuhive_cloud.Common.{
  ◌≡◌, refl, true, false, not, ◌||◌, some, Text, trim_space, Error, Result, ok, err, ◌>>=◌, ◌>>◌,
  reject_if, Bool-cases, inl, inr, not_found, validation, is_blank, text_eq, is_ok, is_some,
  secrets_disabled,
}
use vuhive_cloud.Common.Time.{Time}
use vuhive_cloud.Secrets.{Secret}
use vuhive_cloud.Secrets.Service.{
  Ports, SecretService, UpdateSecretCommand, check_suite, find_owned, update_secret, delete_secret,
}

module _ {S : Type 0} (ports : Ports S) (service : SecretService) where
  not_owned :
      (suite_id secret_id : Text) (s : S) (x : Secret)
      → ports.find_secret (trim_space secret_id) s ≡ ok x
      → text_eq x.suite_id (trim_space suite_id) ≡ false
      → find_owned ports service suite_id secret_id s ≡ err not_found
  unfolding find_owned
  not_owned suite_id secret_id s x e f = elim (Bool-cases service.has_secrets) [
    | inl t ↦ rw (find_owned, t, e, f) refl
    | inr t ↦ rw (find_owned, t) refl
  ]

  abbrev update_guard : UpdateSecretCommand → S → Result Secret
  update_guard cmd s =
      reject_if (not service.has_encryptor) secrets_disabled
      >> (reject_if (is_blank cmd.suite_id || is_blank cmd.secret_id) validation
          >> (check_suite ports service (trim_space cmd.suite_id) s
              >> (find_owned ports service cmd.suite_id cmd.secret_id s
                  >>= (λ x. reject_if (is_blank cmd.value) validation >> ok x))))

  abbrev delete_guard : Text → Text → S → Result Secret
  delete_guard suite_id secret_id s =
      reject_if (not service.has_encryptor) secrets_disabled
      >> (reject_if (is_blank suite_id || is_blank secret_id) validation
          >> find_owned ports service suite_id secret_id s)

  update_refused :
      (now : Time) (cmd : UpdateSecretCommand) (s : S) (problem : Error)
      → update_guard cmd s ≡ err problem
      → update_secret ports service now cmd s ≡ (s, err problem)
  unfolding update_secret
  update_refused now cmd s problem e = rw (update_secret, e) refl

  delete_refused :
      (suite_id secret_id : Text) (s : S) (problem : Error)
      → delete_guard suite_id secret_id s ≡ err problem
      → delete_secret ports service suite_id secret_id s ≡ (s, some problem)
  unfolding delete_secret
  delete_refused suite_id secret_id s problem e = rw (delete_secret, e) refl

  fails_after :
      {A : Type 0} (c : Result (Unit {0})) (r : Result A)
      → ((e : Error) × (r ≡ err e))
      → ((e : Error) × ((c >> r) ≡ err e))
  fails_after (err e) r h = (e, refl)
  fails_after (ok done) r h = h

  -- A suite cannot change or delete the secret of another suite: `UpdateSecret` and `DeleteSecret` with
  -- the identifier of a secret that belongs to another suite than the command's leave everything as it
  -- was and answer with an error. The repository finds the secret under the identifier.
  pub foreign_secret_safe :
      (now : Time) (cmd : UpdateSecretCommand) (s : S) (x : Secret)
      → ports.find_secret (trim_space cmd.secret_id) s ≡ ok x
      → text_eq x.suite_id (trim_space cmd.suite_id) ≡ false
      → ((update_secret ports service now cmd s).0 ≡ s)
        × (is_ok (update_secret ports service now cmd s).1 ≡ false)
        × ((delete_secret ports service cmd.suite_id cmd.secret_id s).0 ≡ s)
        × (is_some (delete_secret ports service cmd.suite_id cmd.secret_id s).1 ≡ true)
  foreign_secret_safe now cmd s x e f =
      let refused = not_owned cmd.suite_id cmd.secret_id s x e f in
      let checked = reject_if (is_blank cmd.suite_id || is_blank cmd.secret_id) validation in
      let enabled = reject_if (not service.has_encryptor) secrets_disabled in
      let chosen = find_owned ports service cmd.suite_id cmd.secret_id s in
      let rest : (e : Error) × ((chosen
              >>= (λ x. reject_if (is_blank cmd.value) validation >> ok x))
            ≡ err e) =
        (not_found, rw refused refl) in
      let suite = check_suite ports service (trim_space cmd.suite_id) s in
      let (p, u) =
        fails_after enabled
          (checked
            >> (suite >> (chosen >>= (λ x. reject_if (is_blank cmd.value) validation >> ok x))))
          (fails_after checked
            (suite >> (chosen >>= (λ x. reject_if (is_blank cmd.value) validation >> ok x)))
            (fails_after suite (chosen >>= (λ x. reject_if (is_blank cmd.value) validation >> ok x))
              rest)) in
      let (q, d) =
        fails_after enabled (checked >> chosen) (fails_after checked chosen (not_found, refused)) in
      rw (update_refused now cmd s p u, delete_refused cmd.suite_id cmd.secret_id s q d)
        (refl, refl, refl, refl)
