-- ===== src/Secrets/Reading.antt =====
-- internal/application/service/secret_service.go: reading back what was stored.
use vuhive_cloud.Common.{
  ℕ, ◌≡◌, refl, sym, ap, ◌∙◌, true, none, List, [], ◌∷◌, Text, trim_space, Error, Result, ok, err,
  ◌>>=◌, Result-cases, inl, inr, subst, bind_ok,
}
use vuhive_cloud.Common.Time.{Time}
use vuhive_cloud.Secrets.{Secret, update_value}
use vuhive_cloud.Secrets.Service.{
  Ports, SecretService, CreateSecretCommand, UpdateSecretCommand, create_secret, renew_and_save,
  update_secret, get_decrypted_secrets, stored,
}
use vuhive_cloud.Secrets.Storing.{
  IsLawful, update_value_fields, stored_decrypts, stored_none, encrypt_ok, create_passes,
  update_passes, update_owned,
}

-- The calls that store a value, with the suite and the value of their command.
pub data Write : Type 0 where
  creating : Text → CreateSecretCommand → Write
  updating : UpdateSecretCommand → Write

abbrev pub suite_of : Write → Text
suite_of (creating uuid cmd) = cmd.suite_id
suite_of (updating cmd) = cmd.suite_id

abbrev pub value_of : Write → Text
value_of (creating uuid cmd) = cmd.value
value_of (updating cmd) = cmd.value

module _ {S : Type 0} (ports : Ports S) (service : SecretService) (law : IsLawful ports) where
  renew_call :
      (now : Time) (value bytes : List ℕ) (x y : Secret) (s : S)
      → (ports.encrypt (trim_space value) s).1 ≡ ok bytes
      → update_value now bytes x ≡ ok y
      → renew_and_save ports service now value x s ≡ (
        (ports.save_secret y (ports.encrypt (trim_space value) s).0).0,
        stored y (ports.save_secret y (ports.encrypt (trim_space value) s).0).1,
      )
  unfolding renew_and_save
  renew_call now value bytes x y s e u = rw (renew_and_save, e) (rw u refl)

  renew_failed :
      (now : Time) (value : Text) (x : Secret) (s : S) (problem : Error)
      → ((ports.encrypt (trim_space value) s).1 >>= (λ bytes. update_value now bytes x))
        ≡ err problem
      → (renew_and_save ports service now value x s).1 ≡ err problem
  unfolding renew_and_save
  renew_failed now value x s problem e = rw (renew_and_save, e) refl

  renew_ok :
      (now : Time) (value : Text) (x y : Secret) (s : S)
      → (renew_and_save ports service now value x s).1 ≡ ok y
      → (t : S) × (y.suite_id ≡ x.suite_id)
        × ((ports.save_secret y t).1 ≡ none)
        × ((renew_and_save ports service now value x s).0 ≡ (ports.save_secret y t).0)
        × (ports.decrypt y.encrypted_value ≡ ok (trim_space value))
  renew_ok now value x y s h =
      let renewed =
        (ports.encrypt (trim_space value) s).1 >>= (λ bytes. update_value now bytes x) in
      elim (Result-cases renewed) [
        | inl (z, e) ↦
            let (bytes, enc, upd) =
              bind_ok (ports.encrypt (trim_space value) s).1 (λ bytes. update_value now bytes x) z
                e in
            let t = (ports.encrypt (trim_space value) s).0 in
            let way = renew_call now value bytes x z s enc upd in
            let both =
              stored_none ports service law y z (ports.save_secret z t).1
                (sym (ap (λ r. r.1) way) ∙ h) in
            let fields = update_value_fields now bytes x z upd in
            subst
              (λ w.
                (t : S) × (w.suite_id ≡ x.suite_id)
                × ((ports.save_secret w t).1 ≡ none)
                × ((renew_and_save ports service now value x s).0 ≡ (ports.save_secret w t).0)
                × (ports.decrypt w.encrypted_value ≡ ok (trim_space value)))
              both.0
              (
                t,
                fields.0,
                both.1,
                ap (λ r. r.0) way,
                ap ports.decrypt fields.2 ∙ law.decrypts (trim_space value) s bytes enc,
              )
        | inr (problem, e) ↦ let way = renew_failed now value x s problem e in cc
      ]

  abbrev pub write : Write → Time → S → S × Result Secret
  write (creating uuid cmd) now s = create_secret ports service uuid now cmd s
  write (updating cmd) now s = update_secret ports service now cmd s

  created_readable :
      (uuid : Text) (now : Time) (new : CreateSecretCommand) (s : S) (x : Secret)
      → service.has_secrets ≡ true
      → (create_secret ports service uuid now new s).1 ≡ ok x
      → get_decrypted_secrets ports service new.suite_id
          (x.key ∷ [])
          (create_secret ports service uuid now new s).0
        ≡ ok ((x.key, trim_space new.value) ∷ [])
  created_readable uuid now new s x hs hc =
      let created = create_passes ports service law uuid now new s x hc in
      let wayc = ap (λ r. r.1) created.1 in
      let (t, suite, saved, state, dec) =
        encrypt_ok ports service law uuid now new s x hs (sym wayc ∙ hc) in
      subst
        (λ q.
          get_decrypted_secrets ports service new.suite_id (x.key ∷ []) q
          ≡ ok ((x.key, trim_space new.value) ∷ []))
        (sym (ap (λ r. r.0) created.1 ∙ state))
        (stored_decrypts ports service law new.suite_id (trim_space new.value) x t created.0 hs
          suite saved dec)

  updated_readable :
      (now : Time) (change : UpdateSecretCommand) (s : S) (y : Secret)
      → service.has_secrets ≡ true
      → (update_secret ports service now change s).1 ≡ ok y
      → get_decrypted_secrets ports service change.suite_id
          (y.key ∷ [])
          (update_secret ports service now change s).0
        ≡ ok ((y.key, trim_space change.value) ∷ [])
  updated_readable now change s y hs hu =
      let (z, he, checked, way) = update_passes ports service law now change s y hu in
      let wayu = ap (λ r. r.1) way in
      let (t, suite, saved, state, dec) = renew_ok now change.value z y s (sym wayu ∙ hu) in
      let owner = update_owned ports service law change s z checked in
      subst
        (λ q.
          get_decrypted_secrets ports service change.suite_id (y.key ∷ []) q
          ≡ ok ((y.key, trim_space change.value) ∷ []))
        (sym (ap (λ r. r.0) way ∙ state))
        (stored_decrypts ports service law change.suite_id (trim_space change.value) y t he hs
          (suite ∙ owner) saved dec)

  -- What `CreateSecret` or `UpdateSecret` stored is what `GetDecryptedSecrets` of the suite returns for
  -- its key: the value of the command without the white space around it. The repository is there and
  -- lists what it saved, and the encryptor decrypts what it encrypted.
  pub stored_secret_readable :
      (call : Write) (now : Time) (s : S) (x : Secret)
      → service.has_secrets ≡ true
      → (write call now s).1 ≡ ok x
      → get_decrypted_secrets ports service (suite_of call) (x.key ∷ []) (write call now s).0
        ≡ ok ((x.key, trim_space (value_of call)) ∷ [])
  stored_secret_readable (creating uuid cmd) now s x hs h = created_readable uuid now cmd s x hs h
  stored_secret_readable (updating cmd) now s x hs h = updated_readable now cmd s x hs h
