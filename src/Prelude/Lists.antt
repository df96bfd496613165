-- ===== src/Prelude/Lists.antt =====
-- Slices of lists by native numbers, sorting by a Boolean test and splitting a text at a character.
use Prim.Native.Nat.{ℕ, zero, suc, ◌+◌, ◌-◌, ◌≤◌}
use mathlib.Core.Path.{◌≡◌, refl, sym, ap, ◌∙◌}
use mathlib.Core.Bool.{Bool, true, false}
use mathlib.Core.Option.{Option, none, some}
use mathlib.Core.List.{List, [], ◌∷◌, ◌++◌}
use native.Mathlib.Omega.{arith}
use lakecat.Prelude.Tests.{length, ◌==◌, if◌then◌else◌, All, Bool-cases}
use mathlib.Core.Logic.{inl, inr}
use lakecat.Prelude.Texts.{Text, strip_prefix}

module _ {ℓ} {A : Type ℓ} where
  abbrev pub take : ℕ → List A → List A
  take zero xs = []
  take (suc n) [] = []
  take (suc n) (x ∷ xs) = x ∷ take n xs

  abbrev pub drop : ℕ → List A → List A
  drop zero xs = xs
  drop (suc n) [] = []
  drop (suc n) (x ∷ xs) = drop n xs

  abbrev pub get_elem? : List A → ℕ → Option A
  get_elem? [] i = none
  get_elem? (x ∷ xs) zero = some x
  get_elem? (x ∷ xs) (suc i) = get_elem? xs i

  -- `items[from..to]`, for bounds within the list
  abbrev pub slice : (from to : ℕ) → List A → List A
  slice from to xs = take (to - from) (drop from xs)

  pub length-take-le : (n : ℕ) (xs : List A) → length (take n xs) ≤ n
  length-take-le zero xs = omega arith
  length-take-le (suc n) [] = omega arith
  length-take-le (suc n) (x ∷ xs) = omega (arith, length-take-le n xs)

  take-append-drop : (n : ℕ) (xs : List A) → take n xs ++ drop n xs ≡ xs
  take-append-drop zero xs = refl
  take-append-drop (suc n) [] = refl
  take-append-drop (suc n) (x ∷ xs) = ap (λ ys. x ∷ ys) (take-append-drop n xs)

  drop-nil : (n : ℕ) → drop n [] ≡ []
  drop-nil zero = refl
  drop-nil (suc n) = refl

  drop-drop : (n m : ℕ) (xs : List A) → drop n (drop m xs) ≡ drop (m + n) xs
  drop-drop n zero xs = let e : n ≡ 0 + n = omega arith in ap (λ k. drop k xs) e
  drop-drop n (suc m) [] = drop-nil n ∙ sym (drop-nil (suc m + n))
  drop-drop n (suc m) (x ∷ xs) =
      let e : suc (m + n) ≡ suc m + n = omega arith in
      drop-drop n m xs ∙ ap (λ k. drop k (x ∷ xs)) e

  pub drop-length : (xs : List A) → drop (length xs) xs ≡ []
  drop-length [] = refl
  drop-length (x ∷ xs) = drop-length xs

  -- A slice and what follows it.
  pub slice-append-drop :
      (from to : ℕ) (xs : List A) → from ≤ to → slice from to xs ++ drop to xs ≡ drop from xs
  slice-append-drop from to xs h =
      ap (λ ys. slice from to xs ++ ys)
        (ap (λ k. drop k xs) (let e : to ≡ from + (to - from) = omega arith in e)
          ∙ sym (drop-drop (to - from) from xs))
      ∙ take-append-drop (to - from) (drop from xs)

  -- `sort`, by the test of `<`: equal items keep their order
  unfoldable pub insert_sorted : (A → A → Bool) → A → List A → List A
  insert_sorted less x [] = x ∷ []
  insert_sorted less x (y ∷ ys) =
      let rest = insert_sorted less x ys in if less y x then y ∷ rest else x ∷ y ∷ ys

  unfoldable pub sort : (A → A → Bool) → List A → List A
  unfolding insert_sorted
  sort less [] = []
  sort less (x ∷ xs) = insert_sorted less x (sort less xs)

-- `str::split`, at a character: one more part than there are separators
unfoldable pub split_from : ℕ → (part rest : Text) → List Text
split_from c part [] = part ∷ []
split_from c part (d ∷ ds) = elim (d == c) [
  | true ↦ part ∷ split_from c [] ds
  | false ↦ split_from c (part ++ d ∷ []) ds
]

unfoldable pub split : ℕ → Text → List Text
unfolding split_from
split c t = split_from c [] t

pub All-map {ℓ κ μ} :
    {A : Type ℓ} (P : A → Type κ) (Q : A → Type μ)
    → ((x : A) → P x → Q x)
    → (xs : List A) → All P xs
    → All Q xs
All-map P Q f [] h = tt
All-map P Q f (x ∷ xs) h = (f x h.0, All-map P Q f xs h.1)

module _ {ℓ κ} {A : Type ℓ} (P : A → Type κ) (less : A → A → Bool) where
  insert_sorted-All : (x : A) (xs : List A) → P x → All P xs → All P (insert_sorted less x xs)
  unfolding insert_sorted
  insert_sorted-All x [] p h = (p, tt)
  insert_sorted-All x (y ∷ ys) p h = elim (Bool-cases (less y x)) [
    | inl later ↦ rw later (h.0, insert_sorted-All x ys p h.1)
    | inr before ↦ rw before (p, h)
  ]

  pub sort-All : (xs : List A) → All P xs → All P (sort less xs)
  unfolding sort
  sort-All [] h = tt
  sort-All (x ∷ xs) h = insert_sorted-All x (sort less xs) h.0 (sort-All xs h.1)

-- What a prefix is stripped from.
pub strip_prefix-append : (p t : Text) → strip_prefix p (p ++ t) ≡ some t
unfolding strip_prefix
strip_prefix-append [] t = refl
strip_prefix-append (c ∷ p) t = ground (arith, strip_prefix-append p t)
