-- ===== src/Prelude/Listed.antt =====
-- Membership in the items that a test keeps.
use mathlib.Core.Path.{◌≡◌, refl}
use mathlib.Core.Logic.{◌⊎◌, inl, inr}
use mathlib.Core.Bool.{Bool, true, false}
use mathlib.Core.List.{List, [], ◌∷◌, Mem, mem-cons_self, mem-cons_of_mem}
use lakecat.Prelude.Tests.{All, if◌then◌else◌, keep}
use lakecat.Prelude.Lists.{All-map}

module _ {ℓ} {A : Type ℓ} where
  -- An item is dropped by the test or a member of what is kept.
  pub keep-covers : (p : A → Bool) (xs : List A) → All (λ x. (p x ≡ false) ⊎ Mem x (keep p xs)) xs
  unfolding keep
  keep-covers p [] = tt
  keep-covers p (x ∷ xs) = covers (keep-covers p xs) (p x) refl
    where
      later : (y : A) → (p y ≡ false) ⊎ Mem y (keep p xs) → (p y ≡ false) ⊎ Mem y (x ∷ keep p xs)
      later y (inl d) = inl d
      later y (inr m) = inr (mem-cons_of_mem x m)

      covers :
          All (λ y. (p y ≡ false) ⊎ Mem y (keep p xs)) xs
          → (b : Bool) → p x ≡ b
          → All (λ y. (p y ≡ false) ⊎ Mem y (if b then x ∷ keep p xs else keep p xs)) (x ∷ xs)
      covers rest true e = (inr mem-cons_self, All-map _ _ later xs rest)
      covers rest false e = (inl e, rest)
