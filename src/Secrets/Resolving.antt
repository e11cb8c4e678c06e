-- ===== src/Secrets/Resolving.antt =====
-- internal/domain/service/template_resolver.go: the keys of a text and their values.
use vuhive_cloud.Common.{
  ◌≡◌, ◌↔◌, refl, sym, ap, ◌∙◌, true, false, not, ◌&&◌, ◌||◌, Option, none, some, List, [], ◌∷◌,
  ◌++◌, Text, arith, Bool-cases, inl, inr, text_eq, text_eq_iff, text_eq→≡, text_eq_refl, is_some,
  ok,
}
use vuhive_cloud.Common.Dict.{Dict, lookup}
use vuhive_cloud.Secrets.Template.{
  Token, literal, placeholder, scan, keys_of, has_text, collect, text_ltb, insert_sorted,
  sort_strings, extract_placeholder_keys, replaced, value_or_match, resolve_template_placeholders,
  missing_from, verdict, validate_placeholders,
}

pub has_text_append :
    (k : Text) (ks js : List Text) → has_text k (ks ++ js) ≡ (has_text k ks || has_text k js)
has_text_append k [] js = refl
has_text_append k (i ∷ ks) js = ground (arith, has_text_append k ks js)

pub has_text_same :
    (j k : Text) (ks : List Text) → text_eq j k ≡ true → has_text j ks ≡ has_text k ks
has_text_same j k ks e = ap (λ z. has_text z ks) (text_eq→≡ j k e)

has_text-collect :
    (k : Text) (seen ks : List Text)
    → has_text k (collect seen ks) ≡ (has_text k seen || has_text k ks)
unfolding collect
has_text-collect k seen [] = ground arith
has_text-collect k seen (j ∷ ks) = ground (
  arith,
  has_text-collect k seen ks,
  has_text-collect k (seen ++ (j ∷ [])) ks,
  has_text_append k seen (j ∷ []),
  has_text_same j k seen,
)

has_text-insert_sorted :
    (k j : Text) (ks : List Text) → has_text k (insert_sorted j ks) ≡ (text_eq j k || has_text k ks)
unfolding insert_sorted
has_text-insert_sorted k j [] = refl
has_text-insert_sorted k j (i ∷ ks) = ground (arith, has_text-insert_sorted k j ks)

has_text-sort_strings : (k : Text) (ks : List Text) → has_text k (sort_strings ks) ≡ has_text k ks
unfolding sort_strings
has_text-sort_strings k [] = refl
has_text-sort_strings k (j ∷ ks) =
    rw (has_text-insert_sorted k j (sort_strings ks), has_text-sort_strings k ks) refl

has_text-missing_from :
    (k : Text) (available ks : List Text)
    → has_text k (missing_from available ks) ≡ (has_text k ks && not (has_text k available))
unfolding missing_from
has_text-missing_from k available [] = refl
has_text-missing_from k available (j ∷ ks) =
    ground (arith, has_text-missing_from k available ks, has_text_same j k available)

-- No text twice.
abbrev Unique : List Text → Type 0
Unique [] = Unit
Unique (k ∷ ks) = (has_text k ks ≡ false) × Unique ks

Unique-append :
    (k : Text) (ks : List Text) → has_text k ks ≡ false → Unique ks → Unique (ks ++ (k ∷ []))
Unique-append k [] h u = (refl, tt)
Unique-append k (j ∷ ks) h u = (
  ground (arith, has_text_append j ks (k ∷ []), text_eq_iff j k, text_eq_iff k j),
  Unique-append k ks (ground arith) u.1,
)

collect-Unique : (seen ks : List Text) → Unique seen → Unique (collect seen ks)
unfolding collect
collect-Unique seen [] u = u
collect-Unique seen (k ∷ ks) u = elim (Bool-cases (has_text k seen)) [
  | inl e ↦ rw e (collect-Unique seen ks u)
  | inr e ↦ rw e (collect-Unique (seen ++ (k ∷ [])) ks (Unique-append k seen e u))
]

-- Each text is before the next one, in the order of `sort.Strings`.
abbrev FirstAfter : Text → List Text → Type 0
FirstAfter k [] = Unit
FirstAfter k (j ∷ ks) = text_ltb k j ≡ true

abbrev pub Ascending : List Text → Type 0
Ascending [] = Unit
Ascending (k ∷ ks) = FirstAfter k ks × Ascending ks

text_ltb_total : (s t : Text) → text_ltb s t ≡ false → text_eq t s ≡ false → text_ltb t s ≡ true
unfolding text_ltb
text_ltb_total [] [] h e = ground arith
text_ltb_total [] (d ∷ t) h e = ground arith
text_ltb_total (c ∷ s) [] h e = refl
text_ltb_total (c ∷ s) (d ∷ t) h e = ground (arith, text_ltb_total s t)

after_insert :
    (i k : Text) (ks : List Text)
    → text_ltb i k ≡ true
    → FirstAfter i ks
    → FirstAfter i (insert_sorted k ks)
unfolding insert_sorted
after_insert i k [] h f = h
after_insert i k (j ∷ ks) h f = elim (Bool-cases (text_ltb j k)) [ inl e ↦ rw e f | inr e ↦ rw e h ]

insert_sorted-Ascending :
    (k : Text) (ks : List Text)
    → has_text k ks ≡ false
    → Ascending ks
    → Ascending (insert_sorted k ks)
unfolding insert_sorted
insert_sorted-Ascending k [] h a = (tt, tt)
insert_sorted-Ascending k (j ∷ ks) h a = elim (Bool-cases (text_ltb j k)) [
  | inl e ↦ rw e (after_insert j k ks e a.0, insert_sorted-Ascending k ks (ground arith) a.1)
  | inr e ↦ rw e (text_ltb_total j k e (ground (arith, text_eq_iff j k, text_eq_iff k j)), a)
]

sort_strings-Ascending : (ks : List Text) → Unique ks → Ascending (sort_strings ks)
unfolding sort_strings
sort_strings-Ascending [] u = tt
sort_strings-Ascending (k ∷ ks) u =
    insert_sorted-Ascending k (sort_strings ks) (has_text-sort_strings k ks ∙ u.0)
      (sort_strings-Ascending ks u.1)

has_text-extract_placeholder_keys :
    (k : Text) (content : Text)
    → has_text k (extract_placeholder_keys content) ≡ has_text k (keys_of (scan content))
unfolding extract_placeholder_keys
has_text-extract_placeholder_keys k content =
    has_text-sort_strings k (collect [] (keys_of (scan content)))
    ∙ has_text-collect k [] (keys_of (scan content))

-- The missing keys of a text.
missing_keys :
    (k : Text) (content : Text) (available : List Text)
    → has_text k (validate_placeholders content available).0
      ≡ (has_text k (keys_of (scan content)) && not (has_text k available))
unfolding validate_placeholders
missing_keys k content available =
    has_text-missing_from k available (extract_placeholder_keys content)
    ∙ ap (λ b. b && not (has_text k available)) (has_text-extract_placeholder_keys k content)

verdict_none : (ks : List Text) → verdict ks ≡ ok tt → (k : Text) → has_text k ks ≡ false
verdict_none [] h k = refl
verdict_none (j ∷ ks) h k = cc

verdict_ok : (ks : List Text) → ((k : Text) → has_text k ks ≡ false) → verdict ks ≡ ok tt
verdict_ok [] h = refl
verdict_ok (j ∷ ks) h = let no = h j in ground (arith, text_eq_refl j)

result_verdict :
    (content : Text) (available : List Text)
    → (validate_placeholders content available).1
      ≡ verdict (validate_placeholders content available).0
unfolding validate_placeholders
result_verdict content available = refl

-- The keys of a text come in strictly ascending order, so none twice, and they are those of its
-- placeholders. `ValidatePlaceholders` reports of them just those that are not available, and no error
-- just when there are none.
pub placeholder_keys_exact :
    (content : Text) (available : List Text)
    → Ascending (extract_placeholder_keys content)
      × ((k : Text)
          → (has_text k (extract_placeholder_keys content) ≡ has_text k (keys_of (scan content)))
            × (has_text k (validate_placeholders content available).0
                ≡ (has_text k (keys_of (scan content)) && not (has_text k available))))
      × (((validate_placeholders content available).1 ≡ ok tt)
          ↔ ((k : Text) → has_text k (keys_of (scan content)) ≡ true → has_text k available ≡ true))
unfolding extract_placeholder_keys
placeholder_keys_exact content available =
    let way = result_verdict content available in
    (
      sort_strings-Ascending (collect [] (keys_of (scan content)))
          (collect-Unique [] (keys_of (scan content)) tt),
      λ k. (has_text-extract_placeholder_keys k content, missing_keys k content available),
      (
        λ h k e.
            let none_missing =
              verdict_none (validate_placeholders content available).0 (sym way ∙ h) k in
            let exactly = missing_keys k content available in ground arith,
        λ h.
            way
            ∙ verdict_ok (validate_placeholders content available).0 (λ k.
              let exactly = missing_keys k content available in let found = h k in ground arith),
      ),
    )

abbrev pub dict_keys : Dict Text → List Text
dict_keys [] = []
dict_keys ((k, v) ∷ d) = k ∷ dict_keys d

has_text-dict_keys : (k : Text) (d : Dict Text) → has_text k (dict_keys d) ≡ is_some (lookup k d)
unfolding lookup
has_text-dict_keys k [] = refl
has_text-dict_keys k ((j, v) ∷ d) = ground (arith, has_text-dict_keys k d)

-- The text with a value for each of its placeholders.
unfoldable pub expanded : (Text → Text) → List Token → Text
expanded f [] = []
expanded f (literal c ∷ ts) = c ∷ expanded f ts
expanded f (placeholder k ∷ ts) = f k ++ expanded f ts

value_found :
    (k : Text) (o : Option Text) (v : Text)
    → is_some o ≡ true
    → ((w : Text) → o ≡ some w → v ≡ w)
    → value_or_match k o ≡ v
value_found k none v h g = ground arith
value_found k (some w) v h g = sym (g w refl)

replaced-expanded :
    (f : Text → Text) (secrets : Dict Text) (ts : List Token)
    → ((k v : Text) → lookup k secrets ≡ some v → f k ≡ v)
    → ((k : Text) → has_text k (keys_of ts) ≡ true → is_some (lookup k secrets) ≡ true)
    → replaced secrets ts ≡ expanded f ts
unfolding replaced expanded keys_of
replaced-expanded f secrets [] h g = refl
replaced-expanded f secrets (literal c ∷ ts) h g =
    ap (λ z. c ∷ z) (replaced-expanded f secrets ts h g)
replaced-expanded f secrets (placeholder k ∷ ts) h g =
    let known = g k (ground (arith, text_eq_refl k)) in
    rw (value_found k (lookup k secrets) (f k) known (h k))
      (ap (λ z. f k ++ z) (replaced-expanded f secrets ts h (λ j e. g j (ground arith))))

-- A configuration that `ValidatePlaceholders` accepts for the keys of some secrets is resolved whole:
-- every placeholder becomes the value of its key, and everything else stays as it is. The values are
-- put in as they are, and placeholders within them are not resolved.
pub validated_resolves :
    (content : Text) (secrets : Dict Text) (f : Text → Text)
    → (validate_placeholders content (dict_keys secrets)).1 ≡ ok tt
    → ((k v : Text) → lookup k secrets ≡ some v → f k ≡ v)
    → resolve_template_placeholders content secrets ≡ expanded f (scan content)
unfolding resolve_template_placeholders
validated_resolves content secrets f accepted values =
    let all_known = (placeholder_keys_exact content (dict_keys secrets)).2.0 accepted in
    replaced-expanded f secrets (scan content) values
      (λ k e. sym (has_text-dict_keys k secrets) ∙ all_known k e)
