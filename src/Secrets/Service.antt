-- ===== src/Secrets/Service.antt =====
-- internal/application/service/secret_service.go over its ports. Logging is left out; an optional port
-- that may be nil is a flag of the service. A nil service answers as one without an encryptor.
use vuhive_cloud.Common.{
  ℕ, Bool, true, false, not, ◌||◌, Option, none, some, List, [], ◌∷◌, Text, trim_space, is_blank,
  text_eq, is_some, if◌then◌else◌, Error, Result, ok, err, reject_if, ◌>>◌, ◌>>=◌, validation,
  not_found, missing_secret, secrets_disabled,
}
use vuhive_cloud.Common.Dict.{Dict, lookup, insert}
use vuhive_cloud.Common.Time.{Time}
use vuhive_cloud.Secrets.{Secret, validate_secret_key, new_secret, update_value}

-- The driven ports. A suite is only looked for. The encryptor draws a nonce, so that it has a state.
pub record Ports (S : Type 0) : Type 0 where
  pub find_suite : Text → S → Result (Unit {0})
  pub find_secret : Text → S → Result Secret
  pub list_secrets : Text → S → Result (List Secret)
  pub save_secret : Secret → S → S × Option Error
  pub delete_row : Text → S → S × Option Error
  pub encrypt : Text → S → S × Result (List ℕ)
  pub decrypt : List ℕ → Result Text

pub record SecretService : Type 0 where
  pub has_encryptor : Bool
  pub has_suites : Bool
  pub has_secrets : Bool

pub record CreateSecretCommand : Type 0 where
  pub suite_id : Text
  pub key : Text
  pub value : Text

pub record UpdateSecretCommand : Type 0 where
  pub suite_id : Text
  pub secret_id : Text
  pub value : Text

-- `secretMap[sec.Key()] = sec`, for each of the secrets.
unfoldable pub secret_map : Dict Secret → List Secret → Dict Secret
secret_map m [] = m
secret_map m (x ∷ xs) = secret_map (insert x.key x m) xs

unfoldable pub missing_keys : Dict Secret → List Text → List Text
missing_keys m [] = []
missing_keys m (k ∷ ks) =
    let rest = missing_keys m ks in if is_some (lookup k m) then rest else k ∷ rest

abbrev pub has_missing : List Text → Bool
has_missing [] = false
has_missing (k ∷ ks) = true

abbrev pub stored : Secret → Option Error → Result Secret
stored x none = ok x
stored x (some e) = err e

module _ {S : Type 0} (ports : Ports S) where
  -- The value of a key that the map has; `sec.EncryptedValue()` of a nil secret would panic.
  unfoldable pub decrypted : Dict Secret → Text → Result Text
  decrypted m k = elim (lookup k m) [
    | none ↦ err missing_secret
    | some x ↦ ports.decrypt x.encrypted_value
  ]

  unfoldable pub decrypt_keys : Dict Secret → Dict Text → List Text → Result (Dict Text)
  decrypt_keys m found [] = ok found
  decrypt_keys m found (k ∷ ks) = elim (decrypted m k) [
    | err e ↦ err e
    | ok v ↦ decrypt_keys m (insert k v found) ks
  ]

module _ {S : Type 0} (ports : Ports S) (service : SecretService) where
  unfoldable pub check_suite : Text → S → Result (Unit {0})
  check_suite id s = if service.has_suites then ports.find_suite id s else ok tt

  -- `if s.secretRepo != nil { if err := s.secretRepo.Save(...) }`.
  unfoldable pub save_new : Result Secret → S → S × Result Secret
  save_new (err e) s = (s, err e)
  save_new (ok x) s =
      if service.has_secrets
      then (let (s', e) = ports.save_secret x s in (s', stored x e))
      else (s, ok x)

  -- `CreateSecret` from the encryption on.
  unfoldable pub encrypt_and_save : Text → Time → CreateSecretCommand → S → S × Result Secret
  encrypt_and_save uuid now cmd s =
      let (s1, encrypted) = ports.encrypt (trim_space cmd.value) s in
      elim encrypted [
        | err e ↦ (s1, err e)
        | ok bytes ↦
            save_new (new_secret uuid now (trim_space cmd.suite_id) (trim_space cmd.key) bytes) s1
      ]

  unfoldable pub create_secret : Text → Time → CreateSecretCommand → S → S × Result Secret
  create_secret uuid now cmd s =
      elim (reject_if (not service.has_encryptor) secrets_disabled
        >> (reject_if (is_blank cmd.suite_id) validation
            >> (validate_secret_key (trim_space cmd.key)
                >> (reject_if (is_blank cmd.value) validation
                    >> check_suite (trim_space cmd.suite_id) s)))) [
                      | err e ↦ (s, err e)
                      | ok done ↦ encrypt_and_save uuid now cmd s
                    ]

  unfoldable pub list_suite_secrets : Text → S → Result (List Secret)
  list_suite_secrets suite_id s =
      reject_if (not service.has_encryptor) secrets_disabled
      >> (reject_if (is_blank suite_id) validation
          >> (check_suite (trim_space suite_id) s
              >> (if service.has_secrets
                  then ports.list_secrets (trim_space suite_id) s
                  else ok [])))

  -- The secret of a suite under an identifier; one of another suite counts as absent.
  unfoldable pub find_owned : Text → Text → S → Result Secret
  find_owned suite_id secret_id s =
      reject_if (not service.has_secrets) not_found
      >> (ports.find_secret (trim_space secret_id) s
          >>= (λ x. reject_if (not (text_eq x.suite_id (trim_space suite_id))) not_found >> ok x))

  -- `UpdateSecret` from the encryption on.
  unfoldable pub renew_and_save : Time → Text → Secret → S → S × Result Secret
  renew_and_save now value x s =
      let (s1, encrypted) = ports.encrypt (trim_space value) s in
      elim (encrypted >>= (λ bytes. update_value now bytes x)) [
        | err e ↦ (s1, err e)
        | ok y ↦ (let (s2, e) = ports.save_secret y s1 in (s2, stored y e))
      ]

  unfoldable pub update_secret : Time → UpdateSecretCommand → S → S × Result Secret
  update_secret now cmd s =
      elim (reject_if (not service.has_encryptor) secrets_disabled
        >> (reject_if (is_blank cmd.suite_id || is_blank cmd.secret_id) validation
            >> (check_suite (trim_space cmd.suite_id) s
                >> (find_owned cmd.suite_id cmd.secret_id s
                    >>= (λ x. reject_if (is_blank cmd.value) validation >> ok x))))) [
                      | err e ↦ (s, err e)
                      | ok x ↦ renew_and_save now cmd.value x s
                    ]

  unfoldable pub delete_secret : Text → Text → S → S × Option Error
  delete_secret suite_id secret_id s =
      elim (reject_if (not service.has_encryptor) secrets_disabled
        >> (reject_if (is_blank suite_id || is_blank secret_id) validation
            >> find_owned suite_id secret_id s)) [
              | err e ↦ (s, some e)
              | ok x ↦ ports.delete_row (trim_space secret_id) s
            ]

  unfoldable pub get_decrypted_secrets : Text → List Text → S → Result (Dict Text)
  get_decrypted_secrets suite_id keys s =
      reject_if (not service.has_encryptor) secrets_disabled
      >> (reject_if (not service.has_secrets) validation
          >> (ports.list_secrets (trim_space suite_id) s >>= (λ rows.
              let m = secret_map [] rows in
              reject_if (has_missing (missing_keys m keys)) missing_secret
              >> decrypt_keys ports m [] keys)))
