-- ===== src/Secrets/Matching.antt =====
-- internal/domain/service/template_resolver.go: what `placeholderPattern` matches.
use vuhive_cloud.Common.{
  ◌≡◌, ◌↔◌, refl, sym, ap, ◌∙◌, true, none, some, [], ◌∷◌, ◌++◌, Text, codes, arith, Bool-cases,
  Option-cases, inl, inr, subst,
}
use mathlib.Core.List.{append_assoc}
use vuhive_cloud.Secrets.{matches_key, all_key_chars, is_upper}
use vuhive_cloud.Secrets.Template.{
  strip_prefix, span_key, key_at, match_at, opening, placeholder_text, closed,
}

pub strip_prefix_sound : (p t u : Text) → strip_prefix p t ≡ some u → p ++ u ≡ t
unfolding strip_prefix
strip_prefix_sound [] t u h = ground arith
strip_prefix_sound (c ∷ p) [] u h = ground arith
strip_prefix_sound (c ∷ p) (d ∷ t) u h = ground (arith, strip_prefix_sound p t u)

pub strip_prefix_complete : (p u : Text) → strip_prefix p (p ++ u) ≡ some u
unfolding strip_prefix
strip_prefix_complete [] u = refl
strip_prefix_complete (c ∷ p) u = ground (arith, strip_prefix_complete p u)

span_join : (t : Text) → (span_key t).0 ++ (span_key t).1 ≡ t
unfolding span_key
span_join [] = refl
span_join (c ∷ t) = ground (arith, span_join t)

span_chars : (t : Text) → all_key_chars (span_key t).0 ≡ true
unfolding span_key all_key_chars
span_chars [] = refl
span_chars (c ∷ t) = ground (arith, span_chars t)

span_complete : (k r : Text) → all_key_chars k ≡ true → span_key (k ++ (0x7d ∷ r)) ≡ (k, 0x7d ∷ r)
unfolding span_key all_key_chars
span_complete [] r h = refl
span_complete (c ∷ k) r h = ground (arith, span_complete k r)

closed_sound : (k u v r : Text) → closed (k, u) ≡ some (v, r) → (v ≡ k) × (u ≡ 0x7d ∷ r)
closed_sound k [] v r h = ground arith
closed_sound k (c ∷ u) v r h = ground arith

key_at_sound :
    (t k r : Text) → key_at t ≡ some (k, r) → (k ++ (0x7d ∷ r) ≡ t) × (matches_key k ≡ true)
unfolding key_at matches_key
key_at_sound [] k r h = ground arith
key_at_sound (c ∷ t) k r h = elim (Bool-cases (is_upper c)) [
  | inl e ↦
      let found : closed (c ∷ (span_key t).0, (span_key t).1) ≡ some (k, r) = ground arith in
      let (same, rest) = closed_sound (c ∷ (span_key t).0) (span_key t).1 k r found in
      ground (arith, span_join t, span_chars t)
  | inr e ↦ ground arith
]

key_at_complete : (k r : Text) → matches_key k ≡ true → key_at (k ++ (0x7d ∷ r)) ≡ some (k, r)
unfolding key_at matches_key
key_at_complete [] r h = ground arith
key_at_complete (c ∷ k) r h = ground (arith, span_complete k r)

match_at-none : (t : Text) → strip_prefix opening t ≡ none → match_at t ≡ none
unfolding match_at
match_at-none t e = rw (match_at, e) refl

match_at-some : (t u : Text) → strip_prefix opening t ≡ some u → match_at t ≡ key_at u
unfolding match_at
match_at-some t u e = rw (match_at, e) refl

placeholder_parts : (k r : Text) → placeholder_text k ++ r ≡ opening ++ (k ++ (0x7d ∷ r))
placeholder_parts k r = ap (λ z. opening ++ z) (append_assoc k (codes "}") r)

-- The pattern matches at the start of a text with a key just when the text begins with `${secrets.`,
-- the key and `}`, and the key is one that a secret may have; what follows is then what is left.
pub match_at_iff :
    (t k r : Text)
    → (match_at t ≡ some (k, r)) ↔ ((placeholder_text k ++ r ≡ t) × (matches_key k ≡ true))
match_at_iff t k r = (
  λ h. elim (Option-cases (strip_prefix opening t)) [
    | inl e ↦ let no = match_at-none t e in cc
    | inr (u, e) ↦
        let parts = key_at_sound u k r (sym (match_at-some t u e) ∙ h) in
        (
          placeholder_parts k r
              ∙ (ap (λ z. opening ++ z) parts.0 ∙ strip_prefix_sound opening t u e),
          parts.1,
        )
  ],
  λ p.
      let start : strip_prefix opening t ≡ some (k ++ (0x7d ∷ r)) =
        subst (λ z. strip_prefix opening z ≡ some (k ++ (0x7d ∷ r)))
          (sym (placeholder_parts k r) ∙ p.0) (strip_prefix_complete opening (k ++ (0x7d ∷ r))) in
      match_at-some t (k ++ (0x7d ∷ r)) start ∙ key_at_complete k r p.1,
)
