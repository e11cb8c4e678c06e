-- ===== src/Masking/Replacing.antt =====
-- internal/runner/masking_writer.go: what a replaced text shows and what it hides.
use vuhive_cloud.Common.{
  ℕ, zero, suc, ◌≤◌, ◌≡◌, refl, sym, ap, ◌∙◌, Bool, true, false, none, some, List, [], ◌∷◌, ◌++◌,
  Text, arith, Error, Result, ok, err, Option-cases, Bool-cases, inl, inr, subst, length,
  length-append, is_empty, is_blank, trim_space, not, ◌&&◌, All, text_eq, text_eq_refl, text_eq→≡,
  ◌||◌,
}
use vuhive_cloud.Secrets.Template.{strip_prefix, has_text}
use vuhive_cloud.Secrets.Matching.{strip_prefix_sound}
use vuhive_cloud.Secrets.Resolving.{has_text_append, has_text_same}
use vuhive_cloud.Masking.{
  first_match, replace_from, replace, redacted, unique_secrets, longest_first, insert_longest,
  new_masking_writer, writer_over, MaskingWriter, write, len,
}

-- No text of the list is empty.
abbrev pub AllFull : List Text → Type 0
AllFull ps = All (λ p. is_empty p ≡ false) ps

-- None of the texts is where the text starts.
abbrev pub NoneStarts : List Text → Text → Type 0
NoneStarts ps t = All (λ p. strip_prefix p t ≡ none) ps

-- A value that the writer masks.
abbrev pub is_secret : List Text → Text → Bool
is_secret values s = has_text s values && not (is_blank s)

-- A text and what a reader sees of it: each character is either shown, where no secret starts, or
-- belongs to an occurrence of a secret that the mark stands for.
pub data Masked (values : List Text) : Text → Text → Type 0 where
  ends : Masked values [] []
  shows :
      {c : ℕ} {t out : Text}
      → ((p : Text) → is_secret values p ≡ true → strip_prefix p (c ∷ t) ≡ none)
      → Masked values t out
      → Masked values (c ∷ t) (c ∷ out)
  hides :
      (p : Text) {t out : Text}
      → is_secret values p ≡ true
      → Masked values t out
      → Masked values (p ++ t) (redacted ++ out)

pub All_has_text {κ} :
    (P : Text → Type κ) (ps : List Text) (q : Text) → All P ps → has_text q ps ≡ true → P q
All_has_text P [] q h e = cc
All_has_text P (p ∷ ps) q h e = elim (Bool-cases (text_eq p q)) [
  | inl s ↦ subst P (text_eq→≡ p q s) h.0
  | inr s ↦ All_has_text P ps q h.1 (ground arith)
]

pub first_match-none : (ps : List Text) (t : Text) → first_match ps t ≡ none → NoneStarts ps t
unfolding first_match
first_match-none [] t h = tt
first_match-none (p ∷ ps) t h = elim (Option-cases (strip_prefix p t)) [
  | inl e ↦ (e, first_match-none ps t (ground arith))
  | inr (u, e) ↦ ground arith
]

-- What the first match is: a member of the list, none of those before it.
pub first_match-some :
    (ps : List Text) (t rest : Text)
    → first_match ps t ≡ some rest
    → (p : Text) × (has_text p ps ≡ true) × (p ++ rest ≡ t)
unfolding first_match
first_match-some [] t rest h = ground arith
first_match-some (p ∷ ps) t rest h = elim (Option-cases (strip_prefix p t)) [
  | inl e ↦
      let found = first_match-some ps t rest (ground arith) in (found.0, ground arith, found.2)
  | inr (u, e) ↦ (p, ground (arith, text_eq_refl p), strip_prefix_sound p t rest (ground arith))
]

full_length : (p : Text) → is_empty p ≡ false → 1 ≤ length p
full_length [] h = ground arith
full_length (c ∷ p) h = omega arith

pub match-shorter :
    (ps : List Text) (c : ℕ) (t rest : Text)
    → AllFull ps
    → first_match ps (c ∷ t) ≡ some rest
    → length rest ≤ length t
match-shorter ps c t rest full h =
    let found = first_match-some ps (c ∷ t) rest h in
    let some_of =
      full_length found.0 (All_has_text (λ z. is_empty z ≡ false) ps found.0 full found.1) in
    let whole = ap length found.2 in let parts = length-append found.0 rest in omega arith

pub replace_from-none :
    (n : ℕ) (ps : List Text) (c : ℕ) (t : Text)
    → first_match ps (c ∷ t) ≡ none
    → replace_from (suc n) ps (c ∷ t) ≡ c ∷ replace_from n ps t
unfolding replace_from
replace_from-none n ps c t e = rw (replace_from, e) refl

pub replace_from-some :
    (n : ℕ) (ps : List Text) (c : ℕ) (t rest : Text)
    → first_match ps (c ∷ t) ≡ some rest
    → replace_from (suc n) ps (c ∷ t) ≡ redacted ++ replace_from n ps rest
unfolding replace_from
replace_from-some n ps c t rest e = rw (replace_from, e) refl

pub replace_from_nil : (n : ℕ) (ps : List Text) → replace_from n ps [] ≡ []
unfolding replace_from
replace_from_nil zero ps = refl
replace_from_nil (suc n) ps = refl

replace_from-Masked :
    (n : ℕ) (values ps : List Text) (t : Text)
    → ((p : Text) → has_text p ps ≡ is_secret values p)
    → AllFull ps
    → length t ≤ n
    → Masked values t (replace_from n ps t)
replace_from-Masked n values ps [] same full h = rw (replace_from_nil n ps) ends
replace_from-Masked zero values ps (c ∷ t) same full h = ground arith
replace_from-Masked (suc n) values ps (c ∷ t) same full h =
    elim (Option-cases (first_match ps (c ∷ t))) [
      | inl e ↦ rw (replace_from-none n ps c t e) (
          shows
            (λ p s.
              All_has_text (λ q. strip_prefix q (c ∷ t) ≡ none) ps p (first_match-none ps (c ∷ t) e)
                (same p ∙ s))
            (replace_from-Masked n values ps t same full (omega arith)))
      | inr (rest, e) ↦
          let shorter = match-shorter ps c t rest full e in
          let found = first_match-some ps (c ∷ t) rest e in
          rw (replace_from-some n ps c t rest e) (
            subst (λ z. Masked values z (redacted ++ replace_from n ps rest)) found.2
              (hides found.0 (sym (same found.0) ∙ found.1)
                (replace_from-Masked n values ps rest same full (omega arith))))
    ]

nothing_hidden :
    (values : List Text) (t : Text) → ((p : Text) → is_secret values p ≡ false) → Masked values t t
nothing_hidden values [] h = ends
nothing_hidden values (c ∷ t) h = shows (λ p s. let no = h p in cc) (nothing_hidden values t h)

same_blank : (v s : Text) → text_eq v s ≡ true → is_blank v ≡ is_blank s
same_blank v s e = ap is_blank (text_eq→≡ v s e)

-- The patterns of the writer.
has_text-unique_secrets :
    (s : Text) (seen values : List Text)
    → has_text s (unique_secrets seen values) ≡ (has_text s seen || is_secret values s)
unfolding unique_secrets
has_text-unique_secrets s seen [] = ground arith
has_text-unique_secrets s seen (v ∷ values) = ground (
  arith,
  has_text-unique_secrets s seen values,
  has_text-unique_secrets s (seen ++ (v ∷ [])) values,
  has_text_append s seen (v ∷ []),
  has_text_same v s seen,
  same_blank v s,
)

has_text-insert_longest :
    (s r : Text) (ps : List Text)
    → has_text s (insert_longest r ps) ≡ (text_eq r s || has_text s ps)
unfolding insert_longest
has_text-insert_longest s r [] = refl
has_text-insert_longest s r (p ∷ ps) = ground (arith, has_text-insert_longest s r ps)

pub has_text-longest_first :
    (s : Text) (ps : List Text) → has_text s (longest_first ps) ≡ has_text s ps
unfolding longest_first
has_text-longest_first s [] = refl
has_text-longest_first s (p ∷ ps) =
    rw (has_text-insert_longest s p (longest_first ps), has_text-longest_first s ps) refl

full_of_ink :
    (ps : List Text) → ((s : Text) → has_text s ps ≡ true → is_blank s ≡ false) → AllFull ps
unfolding trim_space
full_of_ink [] h = tt
full_of_ink (p ∷ ps) h =
    (not_empty p (h p (ground (arith, text_eq_refl p))), full_of_ink ps (λ s e. h s (ground arith)))
  where
    not_empty : (p : Text) → is_blank p ≡ false → is_empty p ≡ false
    not_empty [] b = b
    not_empty (c ∷ q) b = refl

pub patterns_full : (values : List Text) → AllFull (longest_first (unique_secrets [] values))
patterns_full values = full_of_ink (longest_first (unique_secrets [] values)) (λ s e.
    let known = has_text-longest_first s (unique_secrets [] values) in
    let same = has_text-unique_secrets s [] values in ground arith)

-- What the writer passes on of a text.
unfoldable pub passed_on : MaskingWriter → Text → Text
passed_on m p = elim m.replacer [ none ↦ p | some ps ↦ replace ps p ]

passed_over :
    (values us : List Text) (p : Text)
    → ((s : Text) → has_text s us ≡ is_secret values s)
    → AllFull (longest_first us)
    → Masked values p (passed_on (writer_over us) p)
unfolding passed_on replace
passed_over values [] p same full = nothing_hidden values p (λ s. sym (same s))
passed_over values (u ∷ us) p same full =
    replace_from-Masked (length p) values (longest_first (u ∷ us)) p
      (λ s. has_text-longest_first s (u ∷ us) ∙ same s) full (omega arith)

write_state :
    {S : Type 0} (sink : Text → S → S × Result ℕ) (m : MaskingWriter) (p : Text) (s : S)
    → (write sink m p s).0 ≡ (sink (passed_on m p) s).0
unfolding write passed_on
write_state sink m p s = elim (Option-cases m.replacer) [
  | inl e ↦ rw (write, passed_on, e) refl
  | inr (ps, e) ↦ rw (write, passed_on, e) refl
]

write_count :
    {S : Type 0} (sink : Text → S → S × Result ℕ) (m : MaskingWriter) (p : Text) (s : S)
    → (sink (passed_on m p) s).1 ≡ ok (len (passed_on m p))
    → (write sink m p s).1 ≡ ok (len p)
unfolding write passed_on
write_count sink m p s = elim (Option-cases m.replacer) [
  | inl e ↦ rw (write, passed_on, e) (λ h. h)
  | inr (ps, e) ↦ rw (write, passed_on, e) (λ h. rw h refl)
]

write_error :
    {S : Type 0} (sink : Text → S → S × Result ℕ) (m : MaskingWriter) (p : Text) (s : S)
    (problem : Error)
    → (sink (passed_on m p) s).1 ≡ err problem
    → (write sink m p s).1 ≡ err problem
unfolding write passed_on
write_error sink m p s problem = elim (Option-cases m.replacer) [
  | inl e ↦ rw (write, passed_on, e) (λ h. h)
  | inr (ps, e) ↦ rw (write, passed_on, e) (λ h. rw h refl)
]

-- A write masks every occurrence of a secret that does not overlap one masked before it: what the
-- underlying writer is given is the text with each character either shown, where no secret starts, or
-- belonging to an occurrence of a secret for which the mark stands. The secrets are the values that are
-- not blank. If the underlying writer reports that it took all that it was given, `Write` reports the
-- length of the text that was to be written, and an error it passes on.
pub write_masks :
    {S : Type 0} (sink : Text → S → S × Result ℕ) (values : List Text) (p : Text) (s : S)
    → Masked values p (passed_on (new_masking_writer values) p)
      × ((write sink (new_masking_writer values) p s).0
          ≡ (sink (passed_on (new_masking_writer values) p) s).0)
      × ((sink (passed_on (new_masking_writer values) p) s).1
            ≡ ok (len (passed_on (new_masking_writer values) p))
          → (write sink (new_masking_writer values) p s).1 ≡ ok (len p))
      × ((problem : Error)
          → (sink (passed_on (new_masking_writer values) p) s).1 ≡ err problem
          → (write sink (new_masking_writer values) p s).1 ≡ err problem)
unfolding new_masking_writer
write_masks sink values p s = (
  passed_over values (unique_secrets [] values) p (λ t. has_text-unique_secrets t [] values)
      (patterns_full values),
  write_state sink (new_masking_writer values) p s,
  write_count sink (new_masking_writer values) p s,
  write_error sink (new_masking_writer values) p s,
)
