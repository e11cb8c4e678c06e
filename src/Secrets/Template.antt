-- ===== src/Secrets/Template.antt =====
-- internal/domain/service/template_resolver.go: the placeholders `${secrets.KEY}` of a
-- configuration. `placeholderPattern` is `match_at`, a match at the start of a text; finding all
-- matches from the left, without overlap, is `scan`, which cuts the text into tokens.
use vuhive_cloud.Common.{
  ℕ, zero, suc, Bool, true, false, ◌||◌, Option, none, some, List, [], ◌∷◌, ◌++◌, Text, codes,
  text_eq, ◌==◌, ltb, length, if◌then◌else◌, Result, ok, err, missing_secret,
}
use vuhive_cloud.Common.Dict.{Dict, lookup}
use vuhive_cloud.Secrets.{is_upper, is_key_char}

-- What is left of a text after a prefix.
unfoldable pub strip_prefix : Text → Text → Option Text
strip_prefix [] t = some t
strip_prefix (p ∷ ps) [] = none
strip_prefix (p ∷ ps) (c ∷ t) = if p == c then strip_prefix ps t else none

-- `[A-Z0-9_]*`: the longest run of such characters, and the rest.
unfoldable pub span_key : Text → Text × Text
span_key [] = ([], [])
span_key (c ∷ t) =
    let (k, rest) = span_key t in if is_key_char c then (c ∷ k, rest) else ([], c ∷ t)

abbrev pub opening : Text
opening = codes "${secrets."

-- `\}`, after a key.
abbrev pub closed : Text × Text → Option (Text × Text)
closed (k, []) = none
closed (k, c ∷ rest) = if c == 0x7d then some (k, rest) else none

-- `([A-Z][A-Z0-9_]*)\}`: the key and what follows the placeholder.
unfoldable pub key_at : Text → Option (Text × Text)
unfolding span_key
key_at [] = none
key_at (c ∷ t) = let (k, rest) = span_key t in if is_upper c then closed (c ∷ k, rest) else none

unfoldable pub match_at : Text → Option (Text × Text)
unfolding strip_prefix
match_at t = elim (strip_prefix opening t) [ none ↦ none | some u ↦ key_at u ]

-- A character that no match covers, or a match with its key.
pub data Token : Type 0 where
  literal : ℕ → Token
  placeholder : Text → Token

-- The fuel is a bound on the number of tokens.
unfoldable pub tokens : ℕ → Text → List Token
tokens zero t = []
tokens (suc n) [] = []
tokens (suc n) (c ∷ t) = elim (match_at (c ∷ t)) [
  | none ↦ literal c ∷ tokens n t
  | some (k, rest) ↦ placeholder k ∷ tokens n rest
]

unfoldable pub scan : Text → List Token
scan t = tokens (length t) t

abbrev pub has_text : Text → List Text → Bool
has_text k [] = false
has_text k (j ∷ ks) = text_eq j k || has_text k ks

unfoldable pub keys_of : List Token → List Text
keys_of [] = []
keys_of (literal c ∷ ts) = keys_of ts
keys_of (placeholder k ∷ ts) = k ∷ keys_of ts

-- The loop of `ExtractPlaceholderKeys`: `keys` holds what was seen, in order.
unfoldable pub collect : List Text → List Text → List Text
collect keys [] = keys
collect keys (k ∷ ks) = if has_text k keys then collect keys ks else collect (keys ++ (k ∷ [])) ks

-- `sort.Strings`. Keys are ASCII, so that the order of code points is that of bytes.
unfoldable pub text_ltb : Text → Text → Bool
text_ltb [] [] = false
text_ltb [] (d ∷ t) = true
text_ltb (c ∷ s) [] = false
text_ltb (c ∷ s) (d ∷ t) = if c == d then text_ltb s t else ltb c d

unfoldable pub insert_sorted : Text → List Text → List Text
insert_sorted k [] = k ∷ []
insert_sorted k (j ∷ ks) = if text_ltb j k then j ∷ insert_sorted k ks else k ∷ j ∷ ks

unfoldable pub sort_strings : List Text → List Text
sort_strings [] = []
sort_strings (k ∷ ks) = insert_sorted k (sort_strings ks)

unfoldable pub extract_placeholder_keys : Text → List Text
extract_placeholder_keys content = sort_strings (collect [] (keys_of (scan content)))

abbrev pub placeholder_text : Text → Text
placeholder_text k = opening ++ (k ++ codes "}")

-- What the replacement function returns for a match.
abbrev pub value_or_match : Text → Option Text → Text
value_or_match k none = placeholder_text k
value_or_match k (some v) = v

unfoldable pub replaced : Dict Text → List Token → Text
replaced secrets [] = []
replaced secrets (literal c ∷ ts) = c ∷ replaced secrets ts
replaced secrets (placeholder k ∷ ts) = value_or_match k (lookup k secrets) ++ replaced secrets ts

unfoldable pub resolve_template_placeholders : Text → Dict Text → Text
resolve_template_placeholders content secrets = replaced secrets (scan content)

unfoldable pub missing_from : List Text → List Text → List Text
missing_from available [] = []
missing_from available (k ∷ ks) =
    let rest = missing_from available ks in if has_text k available then rest else k ∷ rest

abbrev pub verdict : List Text → Result (Unit {0})
verdict [] = ok tt
verdict (k ∷ ks) = err missing_secret

-- The missing keys, and the error.
unfoldable pub validate_placeholders : Text → List Text → List Text × Result (Unit {0})
validate_placeholders content available =
    let missing = missing_from available (extract_placeholder_keys content) in
    (missing, verdict missing)
