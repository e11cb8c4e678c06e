-- ===== src/Secrets/Tests.antt =====
-- internal/domain/service/template_resolver.go, internal/application/service/secret_service.go: a
-- configuration with two placeholders, and a repository that keeps the secrets in a list.
use vuhive_cloud.Common.{
  ℕ, ◌≡◌, ◌↔◌, subst, refl, sym, true, false, none, some, List, [], ◌∷◌, ◌++◌, Text, codes, Result,
  ok, err, arith, not_found, text_eq, text_eq_iff, text_eq_refl, if◌then◌else◌, trim_space,
  trim_left, trim_right, is_space, is_ok, is_some, missing_secret,
}
use vuhive_cloud.Common.Int.{pos}
use vuhive_cloud.Common.Dict.{Dict, lookup, insert, lookup-insert}
use vuhive_cloud.Secrets.{
  Secret, matches_key, all_key_chars, new_secret, update_value, validate_secret_key,
}
use vuhive_cloud.Secrets.Template.{
  match_at, strip_prefix, key_at, span_key, tokens, scan, extract_placeholder_keys, keys_of,
  collect, sort_strings, insert_sorted, text_ltb, resolve_template_placeholders, replaced,
  validate_placeholders, missing_from, placeholder_text,
}
use vuhive_cloud.Secrets.Matching.{match_at_iff}
use vuhive_cloud.Secrets.Scanning.{Scans, scan_iff}
use vuhive_cloud.Secrets.Template.{literal, placeholder}
use vuhive_cloud.Common.{◌↔◌}
use vuhive_cloud.Secrets.Resolving.{dict_keys, expanded, validated_resolves}
use vuhive_cloud.Secrets.Service.{
  Ports, SecretService, CreateSecretCommand, UpdateSecretCommand, secret_map, create_secret,
  encrypt_and_save, save_new, check_suite, find_owned, update_secret, renew_and_save, delete_secret,
  get_decrypted_secrets,
}
use vuhive_cloud.Secrets.Storing.{IsLawful}
use vuhive_cloud.Secrets.Reading.{creating, updating, stored_secret_readable}
use vuhive_cloud.Secrets.Ownership.{foreign_secret_safe}

abbrev content : Text
content = codes "b=${secrets.B1} a=${secrets.A} ${secrets.x}"

abbrev values : Dict Text
values = (codes "A", codes "one") ∷ (codes "B1", codes "${secrets.A}") ∷ []

abbrev value_of : Text → Text
value_of k = if text_eq k (codes "A") then codes "one" else codes "${secrets.A}"

extracts : extract_placeholder_keys content ≡ codes "A" ∷ codes "B1" ∷ []
unfolding extract_placeholder_keys scan tokens match_at strip_prefix key_at span_key keys_of collect
    sort_strings insert_sorted text_ltb
extracts = refl

resolves : resolve_template_placeholders content values ≡ codes "b=${secrets.A} a=one ${secrets.x}"
unfolding resolve_template_placeholders scan tokens match_at strip_prefix key_at span_key replaced
    lookup
resolves = refl

reports_missing :
    validate_placeholders content (codes "A" ∷ []) ≡ (codes "B1" ∷ [], err missing_secret)
unfolding validate_placeholders missing_from extract_placeholder_keys scan tokens match_at
    strip_prefix key_at span_key keys_of collect sort_strings insert_sorted text_ltb
reports_missing = refl

accepts_all : (validate_placeholders content (dict_keys values)).1 ≡ ok tt
unfolding validate_placeholders missing_from extract_placeholder_keys scan tokens match_at
    strip_prefix key_at span_key keys_of collect sort_strings insert_sorted text_ltb
accepts_all = refl

match_at_iff_example : (match_at (codes "${secrets.A}!") ≡ some (codes "A", codes "!")) ↔ (
    (placeholder_text (codes "A") ++ codes "!" ≡ codes "${secrets.A}!")
    × (matches_key (codes "A") ≡ true))
match_at_iff_example = match_at_iff (codes "${secrets.A}!") (codes "A") (codes "!")

abbrev short_text : Text
short_text = codes "x${secrets.A}"

scan_iff_example :
    (scan short_text ≡ literal 0x78 ∷ placeholder (codes "A") ∷ [])
    ↔ Scans short_text (literal 0x78 ∷ placeholder (codes "A") ∷ [])
scan_iff_example = scan_iff short_text (literal 0x78 ∷ placeholder (codes "A") ∷ [])

values_agree : (k v : Text) → lookup k values ≡ some v → value_of k ≡ v
unfolding lookup
values_agree k v h = ground (arith, text_eq_iff (codes "A") k, text_eq_iff (codes "B1") k)

validated_resolves_example :
    resolve_template_placeholders content values ≡ expanded value_of (scan content)
validated_resolves_example = validated_resolves content values value_of accepts_all values_agree

abbrev by_suite : Text → List Secret → List Secret
by_suite suite [] = []
by_suite suite (x ∷ xs) =
    if text_eq x.suite_id suite then x ∷ by_suite suite xs else by_suite suite xs

abbrev by_id : Text → List Secret → Result Secret
by_id id [] = err not_found
by_id id (x ∷ xs) = if text_eq x.id id then ok x else by_id id xs

abbrev without : Text → List Secret → List Secret
without id [] = []
without id (x ∷ xs) = if text_eq x.id id then without id xs else x ∷ without id xs

abbrev unmarked : List ℕ → Result Text
unmarked [] = err not_found
unmarked (c ∷ t) = ok t

abbrev memory : Ports (List Secret)
memory = record {
  find_suite = λ id s. ok tt;
  find_secret = λ id s. by_id id s;
  list_secrets = λ suite s. ok (by_suite suite s);
  save_secret = λ x s. (without x.id s ++ (x ∷ []), none);
  delete_row = λ id s. (without id s, none);
  encrypt = λ v s. (s, ok (0 ∷ v));
  decrypt = unmarked;
}

by_suite_last :
    (x : Secret) (s : List Secret)
    → by_suite x.suite_id (s ++ (x ∷ [])) ≡ by_suite x.suite_id s ++ (x ∷ [])
by_suite_last x [] = ground (arith, text_eq_refl x.suite_id)
by_suite_last x (y ∷ s) = ground (arith, by_suite_last x s)

last_in_map :
    (x : Secret) (m : Dict Secret) (s : List Secret)
    → lookup x.key (secret_map m (s ++ (x ∷ []))) ≡ some x
unfolding secret_map
last_in_map x m [] = rw (lookup-insert x.key x.key x m, text_eq_refl x.key) refl
last_in_map x m (y ∷ s) = last_in_map x (insert y.key y m) s

memory-IsLawful : IsLawful memory
memory-IsLawful = record {
  listed = λ x s h. (
    by_suite x.suite_id (without x.id s ++ (x ∷ [])),
    refl,
    subst (λ z. lookup x.key (secret_map [] z) ≡ some x) (sym (by_suite_last x (without x.id s)))
        (last_in_map x [] (by_suite x.suite_id (without x.id s))),
  );
  decrypts = λ v s bytes h. ground arith;
}

abbrev service : SecretService
service = record { has_encryptor = true; has_suites = true; has_secrets = true }

abbrev token : Secret
token = record {
  id = codes "1";
  suite_id = codes "s1";
  key = codes "TOKEN";
  encrypted_value = 0 ∷ codes "old";
  created_at = pos 1;
  updated_at = pos 1;
}

abbrev creation : CreateSecretCommand
creation = record { suite_id = codes "s1"; key = codes " PASS "; value = codes " pw " }

abbrev change : UpdateSecretCommand
change = record { suite_id = codes "s1"; secret_id = codes "1"; value = codes "new" }

abbrev foreign_change : UpdateSecretCommand
foreign_change = record { suite_id = codes "s2"; secret_id = codes "1"; value = codes "new" }

abbrev created : Secret
created = record {
  id = codes "2";
  suite_id = codes "s1";
  key = codes "PASS";
  encrypted_value = 0 ∷ codes "pw";
  created_at = pos 5;
  updated_at = pos 5;
}

creates : (create_secret memory service (codes "2") (pos 5) creation (token ∷ [])).1 ≡ ok created
unfolding create_secret validate_secret_key matches_key all_key_chars check_suite encrypt_and_save
    new_secret save_new trim_space trim_left trim_right is_space
creates = refl

updates :
    (update_secret memory service (pos 6) change (token ∷ [])).1
    ≡ ok (record token { encrypted_value = 0 ∷ codes "new"; updated_at = pos 6 })
unfolding update_secret check_suite find_owned renew_and_save update_value trim_space trim_left
    trim_right is_space
updates = refl

creates_first : (create_secret memory service (codes "2") (pos 5) creation []).1 ≡ ok created
unfolding create_secret validate_secret_key matches_key all_key_chars check_suite encrypt_and_save
    new_secret save_new trim_space trim_left trim_right is_space
creates_first = refl

-- The first secret of an empty repository.
stored_secret_readable_example :
    get_decrypted_secrets memory service
      (codes "s1")
      (codes "PASS" ∷ [])
      (create_secret memory service (codes "2") (pos 5) creation []).0
    ≡ ok ((codes "PASS", trim_space (codes " pw ")) ∷ [])
stored_secret_readable_example =
    stored_secret_readable memory service memory-IsLawful (creating (codes "2") creation) (pos 5) []
      created refl creates_first

updated_token :
    get_decrypted_secrets memory service
      (codes "s1")
      (codes "TOKEN" ∷ [])
      (update_secret memory service (pos 6) change (token ∷ [])).0
    ≡ ok ((codes "TOKEN", trim_space (codes "new")) ∷ [])
updated_token =
    stored_secret_readable memory service memory-IsLawful (updating change) (pos 6) (token ∷ [])
      (record token { encrypted_value = 0 ∷ codes "new"; updated_at = pos 6 }) refl updates

finds_token : memory.find_secret (trim_space (codes "1")) (token ∷ []) ≡ ok token
unfolding trim_space trim_left trim_right is_space
finds_token = refl

is_foreign : text_eq (codes "s1") (trim_space (codes "s2")) ≡ false
unfolding trim_space trim_left trim_right is_space
is_foreign = refl

foreign_secret_safe_example :
    ((update_secret memory service (pos 6) foreign_change (token ∷ [])).0 ≡ token ∷ [])
    × (is_ok (update_secret memory service (pos 6) foreign_change (token ∷ [])).1 ≡ false)
    × ((delete_secret memory service (codes "s2") (codes "1") (token ∷ [])).0 ≡ token ∷ [])
    × (is_some (delete_secret memory service (codes "s2") (codes "1") (token ∷ [])).1 ≡ true)
foreign_secret_safe_example =
    foreign_secret_safe memory service (pos 6) foreign_change (token ∷ []) token finds_token
      is_foreign
