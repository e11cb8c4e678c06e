-- ===== src/Masking/Ordering.antt =====
-- internal/runner/masking_writer.go: the order of the patterns. `sort.Slice` may leave patterns of the
-- same length in any order.
use vuhive_cloud.Common.{
  ℕ, zero, suc, ltb, ◌+◌, ◌≤◌, ◌≡◌, refl, sym, ap, ◌∙◌, true, false, none, some, List, [], ◌∷◌,
  ◌++◌, Text, arith, Option-cases, Bool-cases, inl, inr, subst, length, All, text_eq, text_eq→≡,
}
use vuhive_cloud.Secrets.Template.{strip_prefix, has_text}
use vuhive_cloud.Secrets.Matching.{strip_prefix_sound, strip_prefix_complete}
use vuhive_cloud.Masking.{
  len, first_match, replace_from, replace, longest_first, insert_longest, width, redacted,
}
use vuhive_cloud.Masking.Replacing.{
  first_match-none, first_match-some, replace_from-none, replace_from-some, All_has_text,
  has_text-longest_first,
}

-- No text is followed by a longer one.
abbrev pub Descending : List Text → Type 0
Descending [] = Unit
Descending (p ∷ ps) = All (λ r. len r ≤ len p) ps × Descending ps

pub len_append : (s t : Text) → len (s ++ t) ≡ len s + len t
unfolding len
len_append [] t = omega arith
len_append (c ∷ s) t = omega (arith, len_append s t)

-- The first match leaves no more than any other.
first_longest :
    (ps : List Text) (t rest q u : Text)
    → Descending ps
    → first_match ps t ≡ some rest
    → has_text q ps ≡ true
    → strip_prefix q t ≡ some u
    → len rest ≤ len u
unfolding first_match
first_longest [] t rest q u d h m e = ground arith
first_longest (p ∷ ps) t rest q u d h m e = elim (Option-cases (strip_prefix p t)) [
  | inl n ↦
      let other : text_eq p q ≡ false = elim (Bool-cases (text_eq p q)) [
        | inl s ↦ let same = ap (λ z. strip_prefix z t) (text_eq→≡ p q s) in cc
        | inr s ↦ s
      ] in
      first_longest ps t rest q u d.1 (ground arith) (ground arith) e
  | inr (v, n) ↦
      let mine = ap len (strip_prefix_sound p t v n) in
      let its = ap len (strip_prefix_sound q t u e) in
      let add1 = len_append p v in
      let add2 = len_append q u in
      let left : rest ≡ v = ground arith in
      let shorter : len q ≤ len p = elim (Bool-cases (text_eq p q)) [
        | inl s ↦ let same = ap len (text_eq→≡ p q s) in omega arith
        | inr s ↦ All_has_text (λ r. len r ≤ len p) ps q d.0 (ground arith)
      ] in
      let same_left = ap len left in omega arith
]

full_width : (c : ℕ) → 1 ≤ width c
full_width c = ground arith

same_suffix : (p q r s : Text) → p ++ r ≡ q ++ s → len r ≡ len s → r ≡ s
unfolding len
same_suffix [] [] r s e h = e
same_suffix [] (d ∷ q) r s e h =
    let longer = ap len e in let parts = len_append q s in let w = full_width d in ground arith
same_suffix (c ∷ p) [] r s e h =
    let longer = ap len e in let parts = len_append p r in let w = full_width c in ground arith
same_suffix (c ∷ p) (d ∷ q) r s e h = same_suffix p q r s (ground arith) h

no_match_same :
    (ps qs : List Text) (t : Text)
    → ((s : Text) → has_text s ps ≡ has_text s qs)
    → first_match ps t ≡ none
    → first_match qs t ≡ none
no_match_same ps qs t same e = elim (Option-cases (first_match qs t)) [
  | inl n ↦ n
  | inr (rest, f) ↦
      let found = first_match-some qs t rest f in
      let starts = strip_prefix_complete found.0 rest in
      let never =
        All_has_text (λ p. strip_prefix p t ≡ none) ps found.0 (first_match-none ps t e)
          (same found.0 ∙ found.1) in
      let here = ap (strip_prefix found.0) found.2 in cc
]

first_match_same :
    (ps qs : List Text) (t : Text)
    → Descending ps
    → Descending qs
    → ((s : Text) → has_text s ps ≡ has_text s qs)
    → first_match ps t ≡ first_match qs t
first_match_same ps qs t dp dq same = elim (Option-cases (first_match ps t)) [
  | inl e ↦ e ∙ sym (no_match_same ps qs t same e)
  | inr (r, e) ↦ elim (Option-cases (first_match qs t)) [
    | inl n ↦ let no = no_match_same qs ps t (λ s. sym (same s)) n in cc
    | inr (s, f) ↦
        let mine = first_match-some ps t r e in
        let its = first_match-some qs t s f in
        let le1 =
          first_longest ps t r its.0 s dp e (same its.0 ∙ its.1)
            (subst (λ z. strip_prefix its.0 z ≡ some s) its.2 (strip_prefix_complete its.0 s)) in
        let le2 =
          first_longest qs t s mine.0 r dq f (sym (same mine.0) ∙ mine.1)
            (subst (λ z. strip_prefix mine.0 z ≡ some r) mine.2 (strip_prefix_complete mine.0 r)) in
        e
        ∙ (ap (λ z. some z) (same_suffix mine.0 its.0 r s (mine.2 ∙ sym its.2) (omega arith))
            ∙ sym f)
  ]
]

replace_from_same :
    (n : ℕ) (ps qs : List Text) (t : Text)
    → Descending ps
    → Descending qs
    → ((s : Text) → has_text s ps ≡ has_text s qs)
    → replace_from n ps t ≡ replace_from n qs t
unfolding replace_from
replace_from_same zero ps qs t dp dq same = refl
replace_from_same (suc n) ps qs [] dp dq same = refl
replace_from_same (suc n) ps qs (c ∷ t) dp dq same =
    let first = first_match_same ps qs (c ∷ t) dp dq same in
    elim (Option-cases (first_match ps (c ∷ t))) [
      | inl e ↦
          rw (replace_from-none n ps c t e, replace_from-none n qs c t (sym first ∙ e))
            (ap (λ z. c ∷ z) (replace_from_same n ps qs t dp dq same))
      | inr (rest, e) ↦
          rw (replace_from-some n ps c t rest e, replace_from-some n qs c t rest (sym first ∙ e))
            (ap (λ z. redacted ++ z) (replace_from_same n ps qs rest dp dq same))
    ]

below_insert :
    (k : ℕ) (s : Text) (ps : List Text)
    → len s ≤ k
    → All (λ r. len r ≤ k) ps
    → All (λ r. len r ≤ k) (insert_longest s ps)
unfolding insert_longest
below_insert k s [] h a = (h, tt)
below_insert k s (p ∷ ps) h a = elim (Bool-cases (ltb (len s) (len p))) [
  | inl e ↦ rw e (a.0, below_insert k s ps h a.1)
  | inr e ↦ rw e (h, a)
]

weaken : (k m : ℕ) (ps : List Text) → k ≤ m → All (λ r. len r ≤ k) ps → All (λ r. len r ≤ m) ps
weaken k m [] h a = tt
weaken k m (p ∷ ps) h a = (let here = a.0 in omega arith, weaken k m ps h a.1)

insert_longest-Descending :
    (s : Text) (ps : List Text) → Descending ps → Descending (insert_longest s ps)
unfolding insert_longest
insert_longest-Descending s [] d = (tt, tt)
insert_longest-Descending s (p ∷ ps) d = elim (Bool-cases (ltb (len s) (len p))) [
  | inl e ↦ rw e (below_insert (len p) s ps (ground arith) d.0, insert_longest-Descending s ps d.1)
  | inr e ↦ rw e ((ground arith, weaken (len p) (len s) ps (ground arith) d.0), d)
]

longest_first-Descending : (ps : List Text) → Descending (longest_first ps)
unfolding longest_first
longest_first-Descending [] = tt
longest_first-Descending (p ∷ ps) =
    insert_longest-Descending p (longest_first ps) (longest_first-Descending ps)

-- The order in which the sort leaves secrets of the same length does not matter: any list of the same
-- secrets in which none is followed by a longer one masks a text as the sorted list of the model does.
pub order_immaterial :
    (secrets arranged : List Text) (t : Text)
    → Descending arranged
    → ((s : Text) → has_text s arranged ≡ has_text s secrets)
    → replace arranged t ≡ replace (longest_first secrets) t
unfolding replace
order_immaterial secrets arranged t d same =
    replace_from_same (length t) arranged (longest_first secrets) t d
      (longest_first-Descending secrets) (λ s. same s ∙ sym (has_text-longest_first s secrets))
