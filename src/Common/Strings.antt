-- ===== src/Common/Strings.antt =====
-- Go strings as lists of code points, with `strings.TrimSpace`. White space is that of
-- `unicode.IsSpace`.
use Prim.Native.Char.{code}
use Prim.Native.Nat.{ℕ}
use Prim.Native.String.{String}
use mathlib.Core.Path.{◌≡◌, refl}
use mathlib.Core.Logic.{◌↔◌, inl, inr}
use mathlib.Core.Bool.{Bool, true, false, ◌&&◌, ◌||◌}
use mathlib.Core.List.{List, [], ◌∷◌, ◌++◌}
use native.Mathlib.Omega.{arith}
use vuhive_cloud.Common.Tests.{leb, ◌==◌, if◌then◌else◌, Bool-cases}

abbrev pub Text : Type 0
Text = List ℕ

-- A literal of the source.
abbrev pub codes : String → Text
codes (String.◌∷◌ letter rest) = code letter ∷ codes rest
codes String.[] = []

abbrev pub text_eq : Text → Text → Bool
text_eq [] [] = true
text_eq [] (d ∷ t) = false
text_eq (c ∷ s) [] = false
text_eq (c ∷ s) (d ∷ t) = c == d && text_eq s t

pub text_eq→≡ : (s t : Text) → text_eq s t ≡ true → s ≡ t
text_eq→≡ [] [] h = refl
text_eq→≡ [] (d ∷ t) h = ground arith
text_eq→≡ (c ∷ s) [] h = ground arith
text_eq→≡ (c ∷ s) (d ∷ t) h = ground (arith, text_eq→≡ s t)

pub text_eq_refl : (s : Text) → text_eq s s ≡ true
text_eq_refl [] = refl
text_eq_refl (c ∷ s) = ground (arith, text_eq_refl s)

pub text_eq_iff : (s t : Text) → (text_eq s t ≡ true) ↔ (s ≡ t)
text_eq_iff s t = (text_eq→≡ s t, λ e. rw e (text_eq_refl t))

abbrev pub is_empty : Text → Bool
is_empty [] = true
is_empty (c ∷ s) = false

unfoldable pub is_space : ℕ → Bool
is_space c =
    (leb 0x09 c && leb c 0x0d)
    || (c == 0x20
        || (c == 0x85
            || (c == 0xa0
                || (c == 0x1680
                    || ((leb 0x2000 c && leb c 0x200a)
                        || (c == 0x2028
                            || (c == 0x2029 || (c == 0x202f || (c == 0x205f || c == 0x3000)))))))))

unfoldable pub trim_left : Text → Text
trim_left [] = []
trim_left (c ∷ s) = if is_space c then trim_left s else c ∷ s

abbrev drop_blank : ℕ → Text → Text
drop_blank c [] = if is_space c then [] else c ∷ []
drop_blank c (d ∷ s) = c ∷ d ∷ s

unfoldable pub trim_right : Text → Text
trim_right [] = []
trim_right (c ∷ s) = drop_blank c (trim_right s)

unfoldable pub trim_space : Text → Text
unfolding trim_left trim_right is_space
trim_space s = trim_right (trim_left s)

-- `strings.TrimSpace(s) == ""`.
abbrev pub is_blank : Text → Bool
is_blank s = is_empty (trim_space s)

-- The first character, if any, is no white space.
abbrev StartsInk : Text → Type 0
StartsInk [] = Unit {0}
StartsInk (c ∷ s) = is_space c ≡ false

trim_left-StartsInk : (s : Text) → StartsInk (trim_left s)
unfolding trim_left
trim_left-StartsInk [] = tt
trim_left-StartsInk (c ∷ s) = elim (Bool-cases (is_space c)) [
  | inl e ↦ rw e (trim_left-StartsInk s)
  | inr e ↦ rw e e
]

trim_left_of_StartsInk : (s : Text) → StartsInk s → trim_left s ≡ s
unfolding trim_left
trim_left_of_StartsInk [] h = refl
trim_left_of_StartsInk (c ∷ s) h = rw h

trim_right-StartsInk : (s : Text) → StartsInk s → StartsInk (trim_right s)
unfolding trim_right
trim_right-StartsInk [] h = tt
trim_right-StartsInk (c ∷ s) h = keeps (trim_right s)
  where
    keeps : (t : Text) → StartsInk (drop_blank c t)
    keeps [] = rw h h
    keeps (d ∷ t) = h

trim_right_idem : (s : Text) → trim_right (trim_right s) ≡ trim_right s
unfolding trim_right
trim_right_idem [] = refl
trim_right_idem (c ∷ s) = step (trim_right s) (trim_right_idem s)
  where
    step : (t : Text) → trim_right t ≡ t → trim_right (drop_blank c t) ≡ drop_blank c t
    step [] h = elim (Bool-cases (is_space c)) [ inl e ↦ rw e | inr e ↦ rw e (rw e) ]
    step (d ∷ t) h = rw h

-- Trimming twice is trimming once.
pub trim_space_idem : (s : Text) → trim_space (trim_space s) ≡ trim_space s
unfolding trim_space
trim_space_idem s =
    rw
      (trim_left_of_StartsInk (trim_right (trim_left s))
        (trim_right-StartsInk (trim_left s) (trim_left-StartsInk s)))
      (trim_right_idem (trim_left s))

-- A text that is not blank stays so when trimmed.
pub trimmed_ink : (s : Text) → is_blank s ≡ false → is_blank (trim_space s) ≡ false
trimmed_ink s h = rw (trim_space_idem s) h

-- A text that is not empty and ends with no white space.
abbrev pub EndsInk : Text → Type 0
EndsInk t = (trim_right t ≡ t) × (is_empty t ≡ false)

pub append-EndsInk : (s t : Text) → EndsInk t → EndsInk (s ++ t)
unfolding trim_right
append-EndsInk [] t h = h
append-EndsInk (c ∷ s) t h =
    let rest = append-EndsInk s t h in (rw rest.0 (cons_kept (s ++ t) rest.1), refl)
  where
    cons_kept : (u : Text) → is_empty u ≡ false → drop_blank c u ≡ c ∷ u
    cons_kept [] e = cc
    cons_kept (d ∷ u) e = refl

-- Such a text is not trimmed, if it starts with no white space.
pub trim_space_of_EndsInk :
    (c : ℕ) (s : Text) → is_space c ≡ false → EndsInk (c ∷ s) → trim_space (c ∷ s) ≡ c ∷ s
unfolding trim_space trim_left
trim_space_of_EndsInk c s h e = rw h e.0

trims : trim_space (codes " a b\n") ≡ codes "a b"
unfolding trim_space
trims = refl
