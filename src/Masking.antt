-- ===== src/Masking.antt =====
-- internal/runner/masking_writer.go: the writer that masks the secrets in the output of a runner. What
-- is written is text, so a write ends between two characters; `strings.Replacer` tries the patterns in
-- their order at each place from the left and does not overlap its matches.
pub mod Replacing
mod Ordering
mod Tests
mod Chunks
use vuhive_cloud.Common.{
  ℕ, zero, suc, ◌+◌, Bool, Option, none, some, List, [], ◌∷◌, ◌++◌, Text, codes, is_blank, is_empty,
  length, ltb, leb, if◌then◌else◌, Error, Result, ok, err,
}
use vuhive_cloud.Secrets.Template.{strip_prefix, has_text}

-- `len(s)`: the bytes of the text in UTF-8.
abbrev pub width : ℕ → ℕ
width c = if ltb c 0x80 then 1 else if ltb c 0x800 then 2 else if ltb c 0x10000 then 3 else 4

unfoldable pub len : Text → ℕ
len [] = 0
len (c ∷ t) = width c + len t

-- The loop over the values: those that are not blank, each once, in order.
unfoldable pub unique_secrets : List Text → List Text → List Text
unique_secrets seen [] = seen
unique_secrets seen (s ∷ rest) =
    if is_blank s
    then unique_secrets seen rest
    else if has_text s seen
    then unique_secrets seen rest
    else unique_secrets (seen ++ (s ∷ [])) rest

-- `sort.Slice` by length, the longest first.
unfoldable pub insert_longest : Text → List Text → List Text
insert_longest s [] = s ∷ []
insert_longest s (r ∷ rest) =
    if ltb (len s) (len r) then r ∷ insert_longest s rest else s ∷ r ∷ rest

unfoldable pub longest_first : List Text → List Text
longest_first [] = []
longest_first (s ∷ rest) = insert_longest s (longest_first rest)

abbrev pub redacted : Text
redacted = codes "[REDACTED]"

-- The first pattern that a text starts with; what follows it.
unfoldable pub first_match : List Text → Text → Option Text
first_match [] t = none
first_match (p ∷ ps) t = elim (strip_prefix p t) [ none ↦ first_match ps t | some rest ↦ some rest ]

-- `Replace`, where every pattern stands for the mark. The fuel bounds the number of steps.
unfoldable pub replace_from : ℕ → List Text → Text → Text
replace_from zero ps t = []
replace_from (suc n) ps [] = []
replace_from (suc n) ps (c ∷ t) = elim (first_match ps (c ∷ t)) [
  | none ↦ c ∷ replace_from n ps t
  | some rest ↦ redacted ++ replace_from n ps rest
]

unfoldable pub replace : List Text → Text → Text
replace ps t = replace_from (length t) ps t

-- The writer: its replacer, none where there is nothing to mask.
pub record MaskingWriter : Type 0 where
  pub replacer : Option (List Text)

abbrev pub writer_over : List Text → MaskingWriter
writer_over [] = record { replacer = none }
writer_over (s ∷ rest) = record { replacer = some (longest_first (s ∷ rest)) }

unfoldable pub new_masking_writer : List Text → MaskingWriter
new_masking_writer values = writer_over (unique_secrets [] values)

-- The underlying writer takes what it is given or fails; `S` is its state.
module _ {S : Type 0} (sink : Text → S → S × Result ℕ) where
  abbrev pub counted : ℕ → Result ℕ → Result ℕ
  counted n (err e) = err e
  counted n (ok k) = ok n

  unfoldable pub write : MaskingWriter → Text → S → S × Result ℕ
  write m p s = elim m.replacer [
    | none ↦ sink p s
    | some ps ↦ (let (s', r) = sink (replace ps p) s in (s', counted (len p) r))
  ]
