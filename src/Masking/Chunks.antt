-- ===== src/Masking/Chunks.antt =====
-- internal/runner/masking_writer.go: a text that comes in several writes.
use vuhive_cloud.Common.{
  ℕ, zero, suc, arith, ◌≡◌, refl, ap, none, List, [], ◌∷◌, ◌++◌, Text, length, Result, ok,
}
use vuhive_cloud.Masking.{
  first_match, replace_from, replace, new_masking_writer, write, unique_secrets, longest_first, len,
  writer_over,
}
use vuhive_cloud.Masking.Replacing.{passed_on, write_masks, replace_from-none}

-- No secret starts anywhere in the text.
abbrev pub Clear : List Text → Text → Type 0
Clear ps [] = Unit {0}
Clear ps (c ∷ t) = (first_match ps (c ∷ t) ≡ none) × Clear ps t

replace_from-Clear :
    (n : ℕ) (ps : List Text) (t : Text) → Clear ps t → length t ≡ n → replace_from n ps t ≡ t
unfolding replace_from
replace_from-Clear zero ps [] h e = refl
replace_from-Clear (suc n) ps [] h e = refl
replace_from-Clear zero ps (c ∷ t) h e = ground arith
replace_from-Clear (suc n) ps (c ∷ t) h e =
    rw (replace_from-none n ps c t h.0)
      (ap (λ z. c ∷ z) (replace_from-Clear n ps t h.1 (omega arith)))

passed-Clear :
    (us : List Text) (t : Text) → Clear (longest_first us) t → passed_on (writer_over us) t ≡ t
unfolding passed_on replace
passed-Clear [] t h = refl
passed-Clear (u ∷ us) t h = replace_from-Clear (length t) (longest_first (u ∷ us)) t h refl

-- The underlying writer that keeps what it is given.
abbrev pub keeping : Text → Text → Text × Result ℕ
keeping p s = (s ++ p, ok (len p))

-- A secret that is split over two writes is not masked: if no secret occurs in either part, the two
-- writes give the underlying writer the two parts as they are, whatever secret they make up together.
pub split_secret_shown :
    (values : List Text) (a b : Text)
    → Clear (longest_first (unique_secrets [] values)) a
    → Clear (longest_first (unique_secrets [] values)) b
    → (write keeping
        (new_masking_writer values)
        b
        (write keeping (new_masking_writer values) a []).0).0
      ≡ a ++ b
unfolding new_masking_writer
split_secret_shown values a b ca cb =
    rw
      (
        (write_masks keeping values b (write keeping (new_masking_writer values) a []).0).1,
        (write_masks keeping values a []).1,
        passed-Clear (unique_secrets [] values) a ca,
        passed-Clear (unique_secrets [] values) b cb,
      )
      refl
