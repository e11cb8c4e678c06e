-- ===== src/Secrets/Storing.antt =====
-- internal/application/service/secret_service.go: what is stored can be read again, by its own suite.
use vuhive_cloud.Common.{
  ℕ, ◌≡◌, refl, sym, ap, ◌∙◌, Bool, true, false, not, ◌||◌, Option, none, some, List, [], ◌∷◌, Text,
  trim_space, trim_space_idem, is_blank, text_eq, text_eq→≡, Error, Result, ok, err, reject_if,
  ◌>>◌, ◌>>=◌, validation, not_found, secrets_disabled, arith, Result-cases, inl, inr, ok_injective,
  then_ok, bind_ok, not_rejected, subst,
}
use vuhive_cloud.Common.Dict.{Dict, lookup, insert}
use vuhive_cloud.Common.Time.{Time}
use vuhive_cloud.Secrets.{Secret, validate_secret_key, new_secret, update_value}
use vuhive_cloud.Secrets.Service.{
  Ports, SecretService, CreateSecretCommand, UpdateSecretCommand, secret_map, missing_keys,
  check_suite, save_new, encrypt_and_save, create_secret, find_owned, renew_and_save, update_secret,
  decrypted, decrypt_keys, get_decrypted_secrets, stored,
}

-- What the service relies on: a secret that was saved is listed for its suite, as the only one with its
-- key, and what was encrypted can be decrypted.
pub record IsLawful {S : Type 0} (ports : Ports S) : Type 0 where
  pub listed :
      (x : Secret) (s : S)
      → (ports.save_secret x s).1 ≡ none
      → (rows : List Secret) × (ports.list_secrets x.suite_id (ports.save_secret x s).0 ≡ ok rows)
        × (lookup x.key (secret_map [] rows) ≡ some x)
  pub decrypts :
      (v : Text) (s : S) (bytes : List ℕ)
      → (ports.encrypt v s).1 ≡ ok bytes
      → ports.decrypt bytes ≡ ok v

new_secret_fields :
    (uuid : Text) (now : Time) (suite_id key : Text) (bytes : List ℕ) (x : Secret)
    → new_secret uuid now suite_id key bytes ≡ ok x
    → (x.suite_id ≡ trim_space suite_id) × (x.encrypted_value ≡ bytes)
unfolding new_secret
new_secret_fields uuid now suite_id key bytes x h = ground arith

pub update_value_fields :
    (now : Time) (bytes : List ℕ) (x y : Secret)
    → update_value now bytes x ≡ ok y
    → (y.suite_id ≡ x.suite_id) × (y.key ≡ x.key) × (y.encrypted_value ≡ bytes)
unfolding update_value
update_value_fields now bytes x y h = ground arith

set : (b : Bool) → not b ≡ false → b ≡ true
set true h = refl
set false h = cc

module _ {S : Type 0} (ports : Ports S) (service : SecretService) (law : IsLawful ports) where
  one_key_decrypts :
      (m : Dict Secret) (x : Secret) (v : Text)
      → lookup x.key m ≡ some x
      → ports.decrypt x.encrypted_value ≡ ok v
      → decrypt_keys ports m [] (x.key ∷ []) ≡ ok ((x.key, v) ∷ [])
  unfolding decrypt_keys decrypted insert
  one_key_decrypts m x v e d = rw (decrypt_keys, decrypted, e, d) refl

  none_missing :
      (m : Dict Secret) (x : Secret) → lookup x.key m ≡ some x → missing_keys m (x.key ∷ []) ≡ []
  unfolding missing_keys
  none_missing m x e = rw e refl

  pub stored_decrypts :
      (suite_id v : Text) (x : Secret) (s : S)
      → service.has_encryptor ≡ true
      → service.has_secrets ≡ true
      → x.suite_id ≡ trim_space suite_id
      → (ports.save_secret x s).1 ≡ none
      → ports.decrypt x.encrypted_value ≡ ok v
      → get_decrypted_secrets ports service suite_id (x.key ∷ []) (ports.save_secret x s).0
        ≡ ok ((x.key, v) ∷ [])
  unfolding get_decrypted_secrets
  stored_decrypts suite_id v x s he hs own saved d =
      let (rows, l, found) = law.listed x s saved in
      let here : ports.list_secrets (trim_space suite_id) (ports.save_secret x s).0 ≡ ok rows =
        subst (λ z. ports.list_secrets z (ports.save_secret x s).0 ≡ ok rows) own l in
      rw (he, hs, here, none_missing (secret_map [] rows) x found)
        (one_key_decrypts (secret_map [] rows) x v found d)

  pub stored_none : (x y : Secret) (e : Option Error) → stored y e ≡ ok x → (y ≡ x) × (e ≡ none)
  stored_none x y none h = (ok_injective h, refl)
  stored_none x y (some e) h = cc

  save_new_call :
      (y : Secret) (s : S)
      → service.has_secrets ≡ true
      → save_new ports service (ok y) s
        ≡ ((ports.save_secret y s).0, stored y (ports.save_secret y s).1)
  unfolding save_new
  save_new_call y s hs = rw (save_new, hs) refl

  save_new_ok :
      (r : Result Secret) (s : S) (x : Secret)
      → service.has_secrets ≡ true
      → (save_new ports service r s).1 ≡ ok x
      → (r ≡ ok x)
        × ((ports.save_secret x s).1 ≡ none)
        × ((save_new ports service r s).0 ≡ (ports.save_secret x s).0)
  unfolding save_new
  save_new_ok (err e) s x hs h = cc
  save_new_ok (ok y) s x hs h =
      let way = save_new_call y s hs in
      let both = stored_none x y (ports.save_secret y s).1 (sym (ap (λ r. r.1) way) ∙ h) in
      (
        ap (λ z. ok z) both.0,
        subst (λ z. (ports.save_secret z s).1 ≡ none) both.0 both.1,
        ap (λ r. r.0) way ∙ ap (λ z. (ports.save_secret z s).0) both.0,
      )

  pub encrypt_ok :
      (uuid : Text) (now : Time) (cmd : CreateSecretCommand) (s : S) (x : Secret)
      → service.has_secrets ≡ true
      → (encrypt_and_save ports service uuid now cmd s).1 ≡ ok x
      → (t : S) × (x.suite_id ≡ trim_space cmd.suite_id)
        × ((ports.save_secret x t).1 ≡ none)
        × ((encrypt_and_save ports service uuid now cmd s).0 ≡ (ports.save_secret x t).0)
        × (ports.decrypt x.encrypted_value ≡ ok (trim_space cmd.value))
  unfolding encrypt_and_save
  encrypt_ok uuid now cmd s x hs h =
      elim (Result-cases (ports.encrypt (trim_space cmd.value) s).1) [
        | inl (bytes, e) ↦
            let t = (ports.encrypt (trim_space cmd.value) s).0 in
            let made = new_secret uuid now (trim_space cmd.suite_id) (trim_space cmd.key) bytes in
            let way : encrypt_and_save ports service uuid now cmd s
                ≡ save_new ports service made t =
              rw (encrypt_and_save, e) refl in
            let saved = save_new_ok made t x hs (sym (ap (λ r. r.1) way) ∙ h) in
            let fields =
              new_secret_fields uuid now (trim_space cmd.suite_id) (trim_space cmd.key) bytes x
                saved.0 in
            (
              t,
              fields.0 ∙ trim_space_idem cmd.suite_id,
              saved.1,
              ap (λ r. r.0) way ∙ saved.2,
              ap ports.decrypt fields.1 ∙ law.decrypts (trim_space cmd.value) s bytes e,
            )
        | inr (problem, e) ↦
            let way : encrypt_and_save ports service uuid now cmd s
                ≡ ((ports.encrypt (trim_space cmd.value) s).0, err problem) =
              rw (encrypt_and_save, e) refl in
            let bad : err problem ≡ ok x = sym (ap (λ r. r.1) way) ∙ h in cc
      ]

  abbrev no_encryptor : Result (Unit {0})
  no_encryptor = reject_if (not service.has_encryptor) secrets_disabled

  encryptor_set :
      {A : Type 0} (r : Result A) (a : A)
      → (no_encryptor >> r) ≡ ok a
      → service.has_encryptor ≡ true
  encryptor_set r a h =
      set service.has_encryptor
        (not_rejected (not service.has_encryptor) secrets_disabled (then_ok no_encryptor r a h).0)

  abbrev create_checks : CreateSecretCommand → S → Result (Unit {0})
  create_checks cmd s =
      reject_if (is_blank cmd.suite_id) validation
      >> (validate_secret_key (trim_space cmd.key)
          >> (reject_if (is_blank cmd.value) validation
              >> check_suite ports service (trim_space cmd.suite_id) s))

  pub create_passes :
      (uuid : Text) (now : Time) (cmd : CreateSecretCommand) (s : S) (x : Secret)
      → (create_secret ports service uuid now cmd s).1 ≡ ok x
      → (service.has_encryptor ≡ true)
        × (create_secret ports service uuid now cmd s
            ≡ encrypt_and_save ports service uuid now cmd s)
  unfolding create_secret
  create_passes uuid now cmd s x h = elim (Result-cases (no_encryptor >> create_checks cmd s)) [
    | inl (done, e) ↦ (encryptor_set (create_checks cmd s) done e, rw (create_secret, e) refl)
    | inr (problem, e) ↦
        let way : create_secret ports service uuid now cmd s ≡ (s, err problem) =
          rw (create_secret, e) refl in
        let bad : err problem ≡ ok x = sym (ap (λ r. r.1) way) ∙ h in cc
  ]

  abbrev update_checks : UpdateSecretCommand → S → Result Secret
  update_checks cmd s =
      reject_if (is_blank cmd.suite_id || is_blank cmd.secret_id) validation
      >> (check_suite ports service (trim_space cmd.suite_id) s
          >> (find_owned ports service cmd.suite_id cmd.secret_id s
              >>= (λ x. reject_if (is_blank cmd.value) validation >> ok x)))

  pub update_passes :
      (now : Time) (cmd : UpdateSecretCommand) (s : S) (y : Secret)
      → (update_secret ports service now cmd s).1 ≡ ok y
      → (x : Secret) × (service.has_encryptor ≡ true)
        × (update_checks cmd s ≡ ok x)
        × (update_secret ports service now cmd s ≡ renew_and_save ports service now cmd.value x s)
  unfolding update_secret
  update_passes now cmd s y h = elim (Result-cases (no_encryptor >> update_checks cmd s)) [
    | inl (x, e) ↦ (
      x,
      encryptor_set (update_checks cmd s) x e,
      (then_ok no_encryptor (update_checks cmd s) x e).1,
      rw (update_secret, e) refl,
    )
    | inr (problem, e) ↦
        let way : update_secret ports service now cmd s ≡ (s, err problem) =
          rw (update_secret, e) refl in
        let bad : err problem ≡ ok y = sym (ap (λ r. r.1) way) ∙ h in cc
  ]

  owned :
      (suite_id secret_id : Text) (s : S) (x : Secret)
      → find_owned ports service suite_id secret_id s ≡ ok x
      → x.suite_id ≡ trim_space suite_id
  unfolding find_owned
  owned suite_id secret_id s x h =
      let found =
        then_ok (reject_if (not service.has_secrets) not_found)
          (ports.find_secret (trim_space secret_id) s
            >>= (λ z. reject_if (not (text_eq z.suite_id (trim_space suite_id))) not_found >> ok z))
          x h in
      let (z, e, k) =
        bind_ok (ports.find_secret (trim_space secret_id) s)
          (λ z. reject_if (not (text_eq z.suite_id (trim_space suite_id))) not_found >> ok z) x
          found.1 in
      let last =
        then_ok (reject_if (not (text_eq z.suite_id (trim_space suite_id))) not_found) (ok z) x k in
      text_eq→≡ x.suite_id (trim_space suite_id) (
        subst (λ q. text_eq q.suite_id (trim_space suite_id) ≡ true) (ok_injective last.1)
          (set (text_eq z.suite_id (trim_space suite_id))
            (not_rejected (not (text_eq z.suite_id (trim_space suite_id))) not_found last.0)))

  pub update_owned :
      (cmd : UpdateSecretCommand) (s : S) (x : Secret)
      → update_checks cmd s ≡ ok x
      → x.suite_id ≡ trim_space cmd.suite_id
  update_owned cmd s x h =
      let chosen = find_owned ports service cmd.suite_id cmd.secret_id s in
      let one =
        then_ok (reject_if (is_blank cmd.suite_id || is_blank cmd.secret_id) validation)
          (check_suite ports service (trim_space cmd.suite_id) s
            >> (chosen >>= (λ z. reject_if (is_blank cmd.value) validation >> ok z)))
          x h in
      let two =
        then_ok (check_suite ports service (trim_space cmd.suite_id) s)
          (chosen >>= (λ z. reject_if (is_blank cmd.value) validation >> ok z)) x one.1 in
      let (z, e, k) =
        bind_ok chosen (λ z. reject_if (is_blank cmd.value) validation >> ok z) x two.1 in
      let same = ok_injective (then_ok (reject_if (is_blank cmd.value) validation) (ok z) x k).1 in
      subst (λ q. q.suite_id ≡ trim_space cmd.suite_id) same
        (owned cmd.suite_id cmd.secret_id s z e)
