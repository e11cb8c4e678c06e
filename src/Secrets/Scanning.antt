-- ===== src/Secrets/Scanning.antt =====
-- internal/domain/service/template_resolver.go: finding every placeholder of a text.
use vuhive_cloud.Common.{
  ℕ, zero, suc, ◌≤◌, ◌≡◌, refl, ap, true, none, some, List, [], ◌∷◌, ◌++◌, Text, arith, subst, ◌↔◌,
  Option-cases, inl, inr, length, length-append,
}
use vuhive_cloud.Secrets.{matches_key}
use vuhive_cloud.Secrets.Template.{
  match_at, Token, literal, placeholder, tokens, scan, placeholder_text,
}
use vuhive_cloud.Secrets.Matching.{match_at_iff}

match-shrinks : (c : ℕ) (t k r : Text) → match_at (c ∷ t) ≡ some (k, r) → length r ≤ length t
match-shrinks c t k r h =
    let whole = ap length ((match_at_iff (c ∷ t) k r).0 h).0 in
    let parts = length-append (placeholder_text k) r in omega arith

tokens-none :
    (n c : ℕ) (t : Text) → match_at (c ∷ t) ≡ none → tokens (suc n) (c ∷ t) ≡ literal c ∷ tokens n t
unfolding tokens
tokens-none n c t e = rw (tokens, e) refl

tokens-some :
    (n c : ℕ) (t k r : Text)
    → match_at (c ∷ t) ≡ some (k, r)
    → tokens (suc n) (c ∷ t) ≡ placeholder k ∷ tokens n r
unfolding tokens
tokens-some n c t k r e = rw (tokens, e) refl

tokens_nil : (n : ℕ) → tokens n [] ≡ []
unfolding tokens
tokens_nil zero = refl
tokens_nil (suc n) = refl

-- A text starts with no placeholder, whose key is one that a secret may have.
abbrev pub StartsPlain : Text → Type 0
StartsPlain t = (k r : Text) → matches_key k ≡ true → placeholder_text k ++ r ≡ t → ⊥

-- What the tokens of a text are, from the left: a placeholder wherever one starts and no earlier one
-- covers its start, and a single character everywhere else.
unfoldable pub Scans : Text → List Token → Type 0
Scans t [] = t ≡ []
Scans t (literal c ∷ ts) = (r : Text) × (c ∷ r ≡ t) × StartsPlain t × Scans r ts
Scans t (placeholder k ∷ ts) =
    (r : Text) × (placeholder_text k ++ r ≡ t) × (matches_key k ≡ true) × Scans r ts

plain_iff-none : (t : Text) → (match_at t ≡ none) ↔ StartsPlain t
plain_iff-none t = (
  λ e k r key whole. (let found = (match_at_iff t k r).1 (whole, key) in cc),
  λ plain. elim (Option-cases (match_at t)) [
    | inl e ↦ e
    | inr ((k, r), e) ↦ let both = (match_at_iff t k r).0 e in absurd (plain k r both.1 both.0)
  ],
)

tokens-Scans : (n : ℕ) (t : Text) → length t ≤ n → Scans t (tokens n t)
unfolding Scans
tokens-Scans n [] h = rw (tokens_nil n) refl
tokens-Scans zero (c ∷ t) h = ground arith
tokens-Scans (suc n) (c ∷ t) h = elim (Option-cases (match_at (c ∷ t))) [
  | inl e ↦
      rw (tokens-none n c t e)
        (t, refl, (plain_iff-none (c ∷ t)).0 e, tokens-Scans n t (omega arith))
  | inr ((k, r), e) ↦
      let shorter = match-shrinks c t k r e in
      let both = (match_at_iff (c ∷ t) k r).0 e in
      rw (tokens-some n c t k r e) (r, both.0, both.1, tokens-Scans n r (omega arith))
]

Scans-only : (n : ℕ) (t : Text) (ts : List Token) → length t ≤ n → Scans t ts → tokens n t ≡ ts
unfolding Scans
Scans-only n t [] h e = rw (e, tokens_nil n) refl
Scans-only n [] (literal c ∷ ts) h (r, e, plain, rest) = cc
Scans-only n [] (placeholder k ∷ ts) h (r, e, key, rest) = cc
Scans-only zero (d ∷ t) (token ∷ ts) h s = ground arith
Scans-only (suc n) (d ∷ t) (literal c ∷ ts) h (r, e, plain, rest) =
    let same : (c ≡ d) × (r ≡ t) = ground arith in
    let later = subst (λ z. Scans z ts) same.1 rest in
    rw (tokens-none n d t ((plain_iff-none (d ∷ t)).1 plain), same.0)
      (ap (λ z. literal d ∷ z) (Scans-only n t ts (omega arith) later))
Scans-only (suc n) (d ∷ t) (placeholder k ∷ ts) h (r, e, key, rest) =
    let found = (match_at_iff (d ∷ t) k r).1 (e, key) in
    let shorter = match-shrinks d t k r found in
    rw (tokens-some n d t k r found)
      (ap (λ z. placeholder k ∷ z) (Scans-only n r ts (omega arith) rest))

-- The placeholders that are found in a text are those that there are: the tokens of a text are the one
-- cut of it that takes, from the left, a placeholder with a key that a secret may have wherever one
-- starts, and a single character elsewhere.
pub scan_iff : (t : Text) (ts : List Token) → (scan t ≡ ts) ↔ Scans t ts
unfolding scan
scan_iff t ts = (
  λ e. subst (Scans t) e (tokens-Scans (length t) t (omega arith)),
  λ s. Scans-only (length t) t ts (omega arith) s,
)
