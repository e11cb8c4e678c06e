-- ===== src/Partition/Numbers.antt =====
-- `strconv.Itoa` and `strconv.Atoi` as internal/domain/service/workload_partitioner.go uses them: the
-- error of `Atoi` is dropped, so a text that is no number counts as 0, and one out of range as the
-- bound that it passes.
use vuhive_cloud.Common.{
  ℕ, zero, suc, ◌+◌, ◌-◌, ◌*◌, ◌/◌, ◌%◌, ◌^◌, ◌≤◌, ◌<◌, ◌≡◌, refl, ◌∙◌, sym, ap, Bool, true, false,
  ◌&&◌, Option, none, some, [], ◌∷◌, ◌++◌, arith, ltb, leb, ◌==◌, if◌then◌else◌, Text, Bool-cases,
  inl, inr,
}
use vuhive_cloud.Common.Int.{ℤ, pos, negsuc, pos_part}

abbrev pub max_int64 : ℕ
max_int64 = 9223372036854775807

abbrev max_uint64 : ℕ
max_uint64 = 18446744073709551615

abbrev is_digit : ℕ → Bool
is_digit c = leb b'0' c && leb c b'9'

-- `ParseUint` after the sign: a wrong character is an error, and an overflow ends the reading.
unfoldable read_digits : ℕ → Text → Option ℕ
read_digits n [] = some n
read_digits n (c ∷ s) =
    let rest = read_digits (n * 10 + (c - b'0')) s in
    if is_digit c
    then (if leb (n * 10 + (c - b'0')) max_uint64 then rest else some max_uint64)
    else none

unfoldable magnitude : Text → Option ℕ
unfolding read_digits
magnitude [] = none
magnitude (c ∷ s) = read_digits 0 (c ∷ s)

abbrev at_most : Option ℕ → ℤ
at_most none = pos 0
at_most (some n) = if leb n max_int64 then pos n else pos max_int64

abbrev at_least : Option ℕ → ℤ
at_least none = pos 0
at_least (some n) =
    if n == 0 then pos 0 else if leb n (max_int64 + 1) then negsuc (n - 1) else negsuc max_int64

-- `n, _ := strconv.Atoi(s)`.
unfoldable pub atoi : Text → ℤ
unfolding magnitude
atoi [] = pos 0
atoi (c ∷ s) =
    if c == b'-'
    then at_least (magnitude s)
    else if c == b'+'
    then at_most (magnitude s)
    else at_most (magnitude (c ∷ s))

-- The decimal digits of a number below 10 ^ fuel.
unfoldable print_digits : ℕ → ℕ → Text
print_digits zero n = []
print_digits (suc fuel) n =
    let high = print_digits fuel (n / 10) in
    if ltb n 10 then (b'0' + n) ∷ [] else high ++ ((b'0' + n % 10) ∷ [])

-- An `int` has at most 19 digits.
abbrev digits_fuel : ℕ
digits_fuel = 19

unfoldable pub itoa : ℤ → Text
unfolding print_digits
itoa (pos n) = print_digits digits_fuel n
itoa (negsuc n) = b'-' ∷ print_digits digits_fuel (suc n)

append_assoc : (s t u : Text) → (s ++ t) ++ u ≡ s ++ (t ++ u)
append_assoc [] t u = refl
append_assoc (c ∷ s) t u = ap (λ r. c ∷ r) (append_assoc s t u)

read_digit :
    (m d n : ℕ) (t : Text)
    → d < 10
    → m * 10 + d ≡ n
    → n ≤ max_uint64
    → read_digits m ((b'0' + d) ∷ t) ≡ read_digits n t
unfolding read_digits
read_digit m d n t h e k = rw (sym e) (ground arith)

print_none : (n : ℕ) → print_digits 0 n ≡ []
unfolding print_digits
print_none n = refl

print_small : (fuel n : ℕ) → n < 10 → print_digits (suc fuel) n ≡ (b'0' + n) ∷ []
unfolding print_digits
print_small fuel n h = ground arith

print_large :
    (fuel n : ℕ)
    → 10 ≤ n
    → print_digits (suc fuel) n ≡ print_digits fuel (n / 10) ++ ((b'0' + n % 10) ∷ [])
unfolding print_digits
print_large fuel n h = ground arith

-- Reading the digits of a number gives the number back.
read-print_digits :
    (fuel n : ℕ) (t : Text)
    → n < 10 ^ fuel
    → n ≤ max_uint64
    → read_digits 0 (print_digits fuel n ++ t) ≡ read_digits n t
read-print_digits zero n t h k = rw (print_none n) (ap (λ m. read_digits m t) (omega arith))
read-print_digits (suc fuel) n t h k = elim (Bool-cases (ltb n 10)) [
  | inl e ↦
      rw (print_small fuel n (ground arith)) (read_digit 0 n n t (ground arith) (omega arith) k)
  | inr e ↦
      rw
        (
          print_large fuel n (ground arith),
          append_assoc (print_digits fuel (n / 10)) ((b'0' + n % 10) ∷ []) t,
          read-print_digits fuel (n / 10) ((b'0' + n % 10) ∷ t) (omega arith) (omega arith),
        )
        (read_digit (n / 10) (n % 10) n t (omega arith) (omega arith) k)
]

-- A first character is there, and it is a digit.
StartsDigit : Text → Type 0
StartsDigit [] = false ≡ true
StartsDigit (c ∷ s) = is_digit c ≡ true

StartsDigit-append : (s t : Text) → StartsDigit s → StartsDigit (s ++ t)
unfolding StartsDigit
StartsDigit-append [] t h = cc
StartsDigit-append (c ∷ s) t h = h

digit-StartsDigit : (n : ℕ) → n < 10 → StartsDigit ((b'0' + n) ∷ [])
unfolding StartsDigit
digit-StartsDigit n h = ground arith

print_digits-StartsDigit :
    (fuel n : ℕ) → n < 10 ^ suc fuel → StartsDigit (print_digits (suc fuel) n)
print_digits-StartsDigit zero n h =
    rw (print_small 0 n (omega arith)) (digit-StartsDigit n (omega arith))
print_digits-StartsDigit (suc fuel) n h = elim (Bool-cases (ltb n 10)) [
  | inl e ↦ rw (print_small (suc fuel) n (ground arith)) (digit-StartsDigit n (ground arith))
  | inr e ↦ rw (print_large (suc fuel) n (ground arith)) (
      StartsDigit-append (print_digits (suc fuel) (n / 10)) ((b'0' + n % 10) ∷ [])
        (print_digits-StartsDigit fuel (n / 10) (omega arith)))
]

atoi_unsigned : (s : Text) → StartsDigit s → atoi s ≡ at_most (read_digits 0 s)
unfolding atoi StartsDigit
atoi_unsigned [] h = cc
atoi_unsigned (c ∷ s) h = ground arith

append_nil : (s : Text) → s ++ [] ≡ s
append_nil [] = refl
append_nil (c ∷ s) = ap (λ r. c ∷ r) (append_nil s)

read_end : (n : ℕ) → read_digits n [] ≡ some n
unfolding read_digits
read_end n = refl

read-print_int : (n : ℕ) → n ≤ max_int64 → read_digits 0 (print_digits digits_fuel n) ≡ some n
read-print_int n h =
    ap (λ s. read_digits 0 s) (sym (append_nil (print_digits digits_fuel n)))
    ∙ read-print_digits digits_fuel n [] (omega arith) (omega arith)
    ∙ read_end n

itoa_lem : (n : ℕ) → itoa (pos n) ≡ print_digits digits_fuel n
unfolding itoa
itoa_lem n = refl

-- Reading what was printed gives the number back.
pub atoi-itoa : (n : ℕ) → n ≤ max_int64 → atoi (itoa (pos n)) ≡ pos n
atoi-itoa n h =
    rw
      (
        itoa_lem n,
        atoi_unsigned (print_digits digits_fuel n) (print_digits-StartsDigit 18 n (omega arith)),
        read-print_int n h,
      )
      (ground arith)

at_most-le : (o : Option ℕ) → pos_part (at_most o) ≤ max_int64
at_most-le none = omega arith
at_most-le (some n) = ground arith

at_least-le : (o : Option ℕ) → pos_part (at_least o) ≤ max_int64
at_least-le none = omega arith
at_least-le (some n) = ground arith

-- `Atoi` returns an `int`.
pub atoi-le : (s : Text) → pos_part (atoi s) ≤ max_int64
unfolding atoi
atoi-le [] = omega arith
atoi-le (c ∷ s) =
    ground
      (arith, at_most-le (magnitude (c ∷ s)), at_most-le (magnitude s), at_least-le (magnitude s))
