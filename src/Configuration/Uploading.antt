-- ===== src/Configuration/Uploading.antt =====
-- internal/application/service/config_service.go: the rows of the database and the objects of the bucket.
use vuhive_cloud.Common.{
  ◌≡◌, refl, sym, ap, ◌∙◌, true, false, Option, none, some, ◌++◌, Text, codes, trim_space,
  trim_right, is_space, trim_space_idem, EndsInk, append-EndsInk, trim_space_of_EndsInk, is_blank,
  text_eq_refl, Error, ok, err, ok_injective, not_rejected, then_ok, validation, Option-cases,
  Result-cases, inl, inr, subst, arith,
}
use vuhive_cloud.Common.Time.{Time}
use vuhive_cloud.Configuration.{Configuration, new_configuration_with_id}
use vuhive_cloud.Configuration.Persistence.{IsStored, loaded_configuration-IsStored}
use vuhive_cloud.Configuration.Service.{
  Ports, ConfigService, CreateConfigCommand, config_object_key, create_checks, register, created,
  create_config, owned_config, get_config, answer,
}

-- What the service relies on. `object` is what the bucket has under a key.
pub record IsLawful {S : Type 0} (ports : Ports S) (object : S → Text → Option Text) : Type 0 where
  pub saved_found :
      (c : Configuration) (s : S)
      → IsStored c
      → (ports.save_configuration c s).1 ≡ none
      → ports.find_configuration c.id (ports.save_configuration c s).0 ≡ ok c
  pub saved_objects :
      (c : Configuration) (s : S) (k : Text)
      → object (ports.save_configuration c s).0 k ≡ object s k
  pub uploaded :
      (k t : Text) (s : S)
      → (ports.upload k t s).1 ≡ none
      → object (ports.upload k t s).0 k ≡ some t

yaml_ends : EndsInk (codes ".yaml")
unfolding trim_right is_space
yaml_ends = (refl, refl)

key_kept : (suite id : Text) → trim_space (config_object_key suite id) ≡ config_object_key suite id
unfolding config_object_key is_space
key_kept suite id =
    trim_space_of_EndsInk 0x73
      (codes "uites/" ++ (suite ++ (codes "/configs/" ++ (id ++ codes ".yaml")))) refl
      (append-EndsInk (codes "suites/") (suite ++ (codes "/configs/" ++ (id ++ codes ".yaml"))) (
        append-EndsInk suite (codes "/configs/" ++ (id ++ codes ".yaml")) (
          append-EndsInk (codes "/configs/") (id ++ codes ".yaml")
            (append-EndsInk id (codes ".yaml") yaml_ends))))

-- The identity of a new configuration.
abbrev IsOf : Text → CreateConfigCommand → Configuration → Type 0
IsOf uuid cmd c =
    (c.id ≡ uuid)
    × (c.suite_id ≡ trim_space cmd.suite_id)
    × (c.s3_config_key ≡ config_object_key (trim_space cmd.suite_id) uuid)

created-IsOf :
    (uuid : Text) (now : Time) (cmd : CreateConfigCommand) (c : Configuration)
    → created uuid now cmd ≡ ok c
    → IsOf uuid cmd c
unfolding created new_configuration_with_id
created-IsOf uuid now cmd c h =
    grind (arith, trim_space_idem cmd.suite_id, key_kept (trim_space cmd.suite_id) uuid)

created-IsStored :
    (uuid : Text) (now : Time) (cmd : CreateConfigCommand) (c : Configuration)
    → created uuid now cmd ≡ ok c
    → IsStored c
unfolding created
created-IsStored uuid now cmd c h =
    loaded_configuration-IsStored uuid (trim_space cmd.suite_id) (trim_space cmd.name)
      cmd.description cmd.content_yaml (config_object_key (trim_space cmd.suite_id) uuid)
      cmd.is_default now c h

module _ {S : Type 0} (ports : Ports S) (service : ConfigService) where
  registered :
      (c y : Configuration) (s : S)
      → service.has_configurations ≡ true
      → (register ports service (ok c) s).1 ≡ ok y
      → ((ports.save_configuration c s).1 ≡ none)
        × (c ≡ y)
        × ((register ports service (ok c) s).0 ≡ (ports.save_configuration c s).0)
  unfolding register
  registered c y s there h =
      let way : register ports service (ok c) s
          ≡ ((ports.save_configuration c s).0, answer c (ports.save_configuration c s).1) =
        rw (register, there) refl in
      let both = saved_answer (ports.save_configuration c s).1 (sym (ap (λ r. r.1) way) ∙ h) in
      (both.0, both.1, ap (λ r. r.0) way)
    where
      saved_answer : (e : Option Error) → answer c e ≡ ok y → (e ≡ none) × (c ≡ y)
      saved_answer none h = (refl, ok_injective h)
      saved_answer (some e) h = cc

  created_by :
      (uuid : Text) (now : Time) (cmd : CreateConfigCommand) (s : S) (y : Configuration)
      → service.has_storage ≡ true
      → (create_config ports service uuid now cmd s).1 ≡ ok y
      → (create_checks ports service cmd s ≡ ok tt)
        × ((ports.upload (config_object_key (trim_space cmd.suite_id) uuid) cmd.content_yaml s).1
            ≡ none)
        × (create_config ports service uuid now cmd s
            ≡ register ports service
                (created uuid now cmd)
                (ports.upload
                  (config_object_key (trim_space cmd.suite_id) uuid)
                  cmd.content_yaml
                  s).0)
  unfolding create_config
  created_by uuid now cmd s y there h = elim (Result-cases (create_checks ports service cmd s)) [
    | inr (e, c) ↦
        let way : create_config ports service uuid now cmd s ≡ (s, err e) =
          rw (create_config, c) refl in
        let no : err e ≡ ok y = sym (ap (λ r. r.1) way) ∙ h in cc
    | inl (done, c) ↦
        let key = config_object_key (trim_space cmd.suite_id) uuid in
        elim (Option-cases (ports.upload key cmd.content_yaml s).1) [
          | inl u ↦ (c, u, simp (create_config, c, there, u))
          | inr (e, u) ↦
              let way : create_config ports service uuid now cmd s
                  ≡ ((ports.upload key cmd.content_yaml s).0, err e) =
                simp (create_config, c, there, u) in
              let no : err e ≡ ok y = sym (ap (λ r. r.1) way) ∙ h in cc
        ]
  ]

  checks_suite :
      (cmd : CreateConfigCommand) (s : S)
      → create_checks ports service cmd s ≡ ok tt
      → is_blank cmd.suite_id ≡ false
  unfolding create_checks
  checks_suite cmd s h = not_rejected (is_blank cmd.suite_id) validation (then_ok _ _ tt h).0

  found_of :
      (suite uuid : Text) (c : Configuration) (s : S)
      → service.has_configurations ≡ true
      → is_blank suite ≡ false
      → is_blank uuid ≡ false
      → trim_space uuid ≡ uuid
      → c.suite_id ≡ trim_space suite
      → ports.find_configuration uuid s ≡ ok c
      → get_config ports service suite uuid s ≡ ok c
  unfolding get_config owned_config
  found_of suite uuid c s there ink uuid_ink uuid_trimmed same found =
      rw
        (
          get_config,
          owned_config,
          ink,
          uuid_ink,
          there,
          uuid_trimmed,
          found,
          same,
          text_eq_refl (trim_space suite),
        )
        refl

  -- A configuration that `CreateConfig` returns is what `GetConfig` answers for the suite of the
  -- command and the new identifier, and the bucket has the YAML text of the command under the key of
  -- the configuration. The service has its repository and its bucket, the new identifier is not blank
  -- and has no white space around it, and a port that reports success has stored what it was given.
  pub created_config_readable :
      {object : S → Text → Option Text} (law : IsLawful ports object) (uuid : Text) (now : Time)
      (cmd : CreateConfigCommand) (s : S) (y : Configuration)
      → service.has_configurations ≡ true
      → service.has_storage ≡ true
      → is_blank uuid ≡ false
      → trim_space uuid ≡ uuid
      → (create_config ports service uuid now cmd s).1 ≡ ok y
      → (get_config ports service cmd.suite_id uuid (create_config ports service uuid now cmd s).0
          ≡ ok y)
        × (object (create_config ports service uuid now cmd s).0 y.s3_config_key
            ≡ some cmd.content_yaml)
  unfolding register
  created_config_readable {object} law uuid now cmd s y there bucket uuid_ink uuid_trimmed h =
      let key = config_object_key (trim_space cmd.suite_id) uuid in
      let s1 = (ports.upload key cmd.content_yaml s).0 in
      let by = created_by uuid now cmd s y bucket h in
      elim (Result-cases (created uuid now cmd)) [
        | inr (e, m) ↦
            let way = by.2 ∙ ap (λ r. register ports service r s1) m in
            let no : err e ≡ ok y = sym (ap (λ r. r.1) way) ∙ h in cc
        | inl (c, m) ↦
            let way = by.2 ∙ ap (λ r. register ports service r s1) m in
            let reg = registered c y s1 there (sym (ap (λ r. r.1) way) ∙ h) in
            let ends = ap (λ r. r.0) way ∙ reg.2 in
            let of = created-IsOf uuid now cmd c m in
            let t = (ports.save_configuration c s1).0 in
            let found =
              subst (λ i. ports.find_configuration i t ≡ ok c) of.0
                (law.saved_found c s1 (created-IsStored uuid now cmd c m) reg.0) in
            subst
              (λ z.
                (get_config ports service cmd.suite_id uuid
                    (create_config ports service uuid now cmd s).0
                  ≡ ok z)
                × (object (create_config ports service uuid now cmd s).0 z.s3_config_key
                    ≡ some cmd.content_yaml))
              reg.1
              (subst
                (λ r.
                  (get_config ports service cmd.suite_id uuid r ≡ ok c)
                  × (object r c.s3_config_key ≡ some cmd.content_yaml))
                (sym ends)
                (
                  found_of cmd.suite_id uuid c t there (checks_suite cmd s by.0) uuid_ink
                      uuid_trimmed of.1 found,
                  law.saved_objects c s1 c.s3_config_key
                      ∙ subst (λ k. object s1 k ≡ some cmd.content_yaml) (sym of.2)
                          (law.uploaded key cmd.content_yaml s by.1),
                ))
      ]
