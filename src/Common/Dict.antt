-- ===== src/Common/Dict.antt =====
-- A Go `map[string]V` as an association list: the entries in the order in which their keys came.
use Prim.Native.Nat.{ℕ, ◌+◌, ◌≤◌}
use mathlib.Core.Path.{◌≡◌, refl, sym, subst}
use mathlib.Core.Bool.{Bool, false, ◌||◌}
use mathlib.Core.Logic.{inl, inr}
use mathlib.Core.Option.{Option, none, some}
use mathlib.Core.List.{List, [], ◌∷◌}
use native.Mathlib.Omega.{arith}
use vuhive_cloud.Common.Tests.{if◌then◌else◌, is_some, Bool-cases}
use vuhive_cloud.Common.Lists.{length}
use vuhive_cloud.Common.Strings.{Text, text_eq, text_eq_iff, text_eq→≡}

abbrev pub Dict {ℓ} : Type ℓ → Type ℓ
Dict V = List (Text × V)

-- Whether a text is in a list, and that a list has no text twice.
abbrev pub is_among : Text → List Text → Bool
is_among k [] = false
is_among k (j ∷ ks) = text_eq j k || is_among k ks

abbrev pub Unique : List Text → Type 0
Unique [] = Unit {0}
Unique (j ∷ ks) = (is_among j ks ≡ false) × Unique ks

module _ {ℓ} {V : Type ℓ} where
  unfoldable pub lookup : Text → Dict V → Option V
  lookup k [] = none
  lookup k ((j, v) ∷ m) = if text_eq j k then some v else lookup k m

  unfoldable pub insert : Text → V → Dict V → Dict V
  insert k v [] = (k, v) ∷ []
  insert k v ((j, w) ∷ m) = if text_eq j k then (j, v) ∷ m else (j, w) ∷ insert k v m

  unfoldable pub delete : Text → Dict V → Dict V
  delete k [] = []
  delete k ((j, w) ∷ m) = if text_eq j k then delete k m else (j, w) ∷ delete k m

  -- `for k, v := range m { if p(v) { delete(m, k) } }`.
  unfoldable pub delete_where : (V → Bool) → Dict V → Dict V
  delete_where p [] = []
  delete_where p ((j, w) ∷ m) = if p w then delete_where p m else (j, w) ∷ delete_where p m

  -- No key occurs twice: what a map is.
  abbrev pub Distinct : Dict V → Type ℓ
  Distinct [] = Unit
  Distinct ((j, w) ∷ m) = (lookup j m ≡ none) × Distinct m

  -- What is left of a value that a test removes.
  abbrev pub spare : (V → Bool) → Option V → Option V
  spare p none = none
  spare p (some v) = if p v then none else some v

  -- How many values pass a test.
  unfoldable pub count : (V → Bool) → Dict V → ℕ
  count p [] = 0
  count p ((j, v) ∷ m) = (if p v then 1 else 0) + count p m

  pub lookup-insert :
      (k j : Text) (v : V) (m : Dict V)
      → lookup j (insert k v m) ≡ (if text_eq k j then some v else lookup j m)
  unfolding lookup insert
  lookup-insert k j v [] = refl
  lookup-insert k j v ((i, w) ∷ m) =
      ground (arith, text_eq_iff k j, text_eq_iff i k, text_eq_iff i j, lookup-insert k j v m)

  pub lookup-delete :
      (k j : Text) (m : Dict V) → lookup j (delete k m) ≡ (if text_eq k j then none else lookup j m)
  unfolding lookup delete
  lookup-delete k j [] = ground arith
  lookup-delete k j ((i, w) ∷ m) =
      ground (arith, text_eq_iff k j, text_eq_iff i k, text_eq_iff i j, lookup-delete k j m)

  pub length-insert :
      (k : Text) (v : V) (m : Dict V)
      → length (insert k v m) ≡ (if is_some (lookup k m) then length m else length m + 1)
  unfolding lookup insert
  length-insert k v [] = omega arith
  length-insert k v ((i, w) ∷ m) = ground (arith, length-insert k v m)

  pub insert-Distinct : (k : Text) (v : V) (m : Dict V) → Distinct m → Distinct (insert k v m)
  unfolding insert lookup
  insert-Distinct k v [] h = (refl, tt)
  insert-Distinct k v ((i, w) ∷ m) h = elim (Bool-cases (text_eq i k)) [
    | inl e ↦ rw e h
    | inr e ↦ rw e (
      rw (lookup-insert k i v m) (ground (arith, text_eq_iff i k, text_eq_iff k i)),
      insert-Distinct k v m h.1,
    )
  ]

  delete_where_absent :
      (p : V → Bool) (k : Text) (m : Dict V)
      → lookup k m ≡ none
      → lookup k (delete_where p m) ≡ none
  unfolding lookup delete_where
  delete_where_absent p k [] h = h
  delete_where_absent p k ((i, w) ∷ m) h = ground (arith, delete_where_absent p k m)

  pub delete_where-Distinct : (p : V → Bool) (m : Dict V) → Distinct m → Distinct (delete_where p m)
  unfolding delete_where
  delete_where-Distinct p [] h = tt
  delete_where-Distinct p ((i, w) ∷ m) h = elim (Bool-cases (p w)) [
    | inl e ↦ rw e (delete_where-Distinct p m h.1)
    | inr e ↦ rw e (delete_where_absent p i m h.0, delete_where-Distinct p m h.1)
  ]

  pub lookup-delete_where :
      (p : V → Bool) (k : Text) (m : Dict V)
      → Distinct m
      → lookup k (delete_where p m) ≡ spare p (lookup k m)
  unfolding lookup delete_where
  lookup-delete_where p k [] h = refl
  lookup-delete_where p k ((i, w) ∷ m) h = elim (Bool-cases (text_eq i k)) [
    | inl e ↦
        let same = text_eq→≡ i k e in
        let gone = delete_where_absent p i m h.0 in
        elim (Bool-cases (p w)) [ inl q ↦ rw (e, q, sym same) gone | inr q ↦ rw (e, q, e) ]
    | inr e ↦ ground (arith, lookup-delete_where p k m h.1)
  ]

  delete_absent : (k j : Text) (m : Dict V) → lookup j m ≡ none → lookup j (delete k m) ≡ none
  delete_absent k j m h = rw (lookup-delete k j m, h) (ground arith)

  pub delete-Distinct : (k : Text) (m : Dict V) → Distinct m → Distinct (delete k m)
  unfolding delete
  delete-Distinct k [] h = tt
  delete-Distinct k ((i, w) ∷ m) h = elim (Bool-cases (text_eq i k)) [
    | inl e ↦ rw e (delete-Distinct k m h.1)
    | inr e ↦ rw e (delete_absent k i m h.0, delete-Distinct k m h.1)
  ]

  pub length-delete_where :
      (p : V → Bool) (m : Dict V) → length (delete_where p m) + count p m ≡ length m
  unfolding delete_where count
  length-delete_where p [] = refl
  length-delete_where p ((i, w) ∷ m) = ground (arith, length-delete_where p m)

  pub count-le-length : (p : V → Bool) (m : Dict V) → count p m ≤ length m
  unfolding count
  count-le-length p [] = omega arith
  count-le-length p ((i, w) ∷ m) = ground (arith, count-le-length p m)

  -- The count after a write, by what the key held before.
  abbrev pub weight : (V → Bool) → Option V → ℕ
  weight p none = 0
  weight p (some v) = if p v then 1 else 0

  pub count-insert :
      (p : V → Bool) (k : Text) (v : V) (m : Dict V)
      → count p (insert k v m) + weight p (lookup k m) ≡ count p m + weight p (some v)
  unfolding count lookup insert
  count-insert p k v [] = omega arith
  count-insert p k v ((i, w) ∷ m) = ground (arith, count-insert p k v m)

module _ {ℓ κ} {V : Type ℓ} (P : V → Type κ) where
  -- Every value satisfies the predicate.
  abbrev pub AllValues : Dict V → Type κ
  AllValues [] = Unit
  AllValues ((k, v) ∷ m) = P v × AllValues m

  pub AllValues-insert :
      (k : Text) (v : V) (m : Dict V) → P v → AllValues m → AllValues (insert k v m)
  unfolding insert
  AllValues-insert k v [] p h = (p, tt)
  AllValues-insert k v ((j, w) ∷ m) p h = elim (Bool-cases (text_eq j k)) [
    | inl e ↦ rw e (p, h.1)
    | inr e ↦ rw e (h.0, AllValues-insert k v m p h.1)
  ]

  pub AllValues-lookup : (k : Text) (m : Dict V) {v : V} → AllValues m → lookup k m ≡ some v → P v
  unfolding lookup
  AllValues-lookup k [] h e = cc
  AllValues-lookup k ((j, w) ∷ m) {v} h e = elim (Bool-cases (text_eq j k)) [
    | inl t ↦ subst P (ground arith) h.0
    | inr t ↦ AllValues-lookup k m h.1 (ground arith)
  ]

module _ {ℓ} {V : Type ℓ} where
  -- The keys of the values that pass a test.
  unfoldable pub keys_where : (V → Bool) → Dict V → List Text
  keys_where p [] = []
  keys_where p ((j, v) ∷ m) = if p v then j ∷ keys_where p m else keys_where p m

  pub length-keys_where : (p : V → Bool) (m : Dict V) → length (keys_where p m) ≡ count p m
  unfolding keys_where count
  length-keys_where p [] = refl
  length-keys_where p ((j, v) ∷ m) = ground (arith, length-keys_where p m)

  -- Whether there is a value, and it passes the test.
  abbrev pub satisfies : (V → Bool) → Option V → Bool
  satisfies p none = false
  satisfies p (some v) = p v

  keys_where_absent :
      (p : V → Bool) (k : Text) (m : Dict V)
      → lookup k m ≡ none
      → is_among k (keys_where p m) ≡ false
  unfolding lookup keys_where
  keys_where_absent p k [] h = refl
  keys_where_absent p k ((j, v) ∷ m) h = ground (arith, keys_where_absent p k m)

  pub keys_where_lem :
      (p : V → Bool) (k : Text) (m : Dict V)
      → Distinct m
      → is_among k (keys_where p m) ≡ satisfies p (lookup k m)
  unfolding lookup keys_where
  keys_where_lem p k [] h = refl
  keys_where_lem p k ((j, v) ∷ m) h = elim (Bool-cases (text_eq j k)) [
    | inl e ↦ let gone = keys_where_absent p j m h.0 in let same = text_eq→≡ j k e in ground arith
    | inr e ↦ ground (arith, keys_where_lem p k m h.1)
  ]

  pub keys_where-Unique : (p : V → Bool) (m : Dict V) → Distinct m → Unique (keys_where p m)
  unfolding keys_where
  keys_where-Unique p [] h = tt
  keys_where-Unique p ((j, v) ∷ m) h = elim (Bool-cases (p v)) [
    | inl e ↦ rw e (keys_where_absent p j m h.0, keys_where-Unique p m h.1)
    | inr e ↦ rw e (keys_where-Unique p m h.1)
  ]
