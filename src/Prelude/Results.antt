-- ===== src/Prelude/Results.antt =====
-- `LakeCatError` and `LakeCatResult` of crates/lakecat-core/src/lib.rs.
use Prim.Native.String.{String}
use mathlib.Core.Path.{◌≡◌, refl}
use mathlib.Core.Bool.{Bool, true, false}
use mathlib.Core.Option.{Option, none, some}
use mathlib.Core.List.{List, [], ◌∷◌}
use lakecat.Prelude.Texts.{Text}
use lakecat.Prelude.Tests.{All}

-- A message is its format string and the arguments that are formatted into it.
pub data LakeCatError : Type 0 where
  invalid_argument : String → List Text → LakeCatError
  unprocessable_entity : String → List Text → LakeCatError
  not_found : String → Text → LakeCatError
  already_exists : String → Text → LakeCatError
  conflict : String → List Text → LakeCatError
  forbidden : String → List Text → LakeCatError
  not_supported : String → List Text → LakeCatError
  unavailable : String → List Text → LakeCatError
  internal : String → List Text → LakeCatError

pub data LakeCatResult {ℓ} (A : Type ℓ) : Type ℓ where
  ok : A → LakeCatResult A
  err : LakeCatError → LakeCatResult A

infixl 10 ◌>>=◌ ◌>>◌
unfoldable pub ◌>>=◌ {ℓ κ} :
    {A : Type ℓ} {B : Type κ} → LakeCatResult A → (A → LakeCatResult B) → LakeCatResult B
ok a >>= f = f a
err e >>= f = err e

unfoldable pub ◌>>◌ {ℓ} :
    {B : Type ℓ} → LakeCatResult (Unit {0}) → LakeCatResult B → LakeCatResult B
unfolding ◌>>=◌
m >> k = m >>= λ _. k

-- `if test { return Err(e) }`
unfoldable pub reject : Bool → LakeCatError → LakeCatResult (Unit {0})
reject true e = err e
reject false e = ok tt

-- `if !test { return Err(e) }`, and the same for a comparison
unfoldable pub ensure : Bool → LakeCatError → LakeCatResult (Unit {0})
ensure true e = ok tt
ensure false e = err e

unfoldable pub ensure_that {ℓ} : {P : Type ℓ} → Dec P → LakeCatError → LakeCatResult (Unit {0})
ensure_that (yes p) e = ok tt
ensure_that (no p) e = err e

-- `ok_or`
unfoldable pub ok_or {ℓ} : {A : Type ℓ} → Option A → LakeCatError → LakeCatResult A
ok_or (some a) e = ok a
ok_or none e = err e

-- `if let Some(a) = o { check(a)?; }`
unfoldable pub if_some {ℓ} :
    {A : Type ℓ} → Option A → (A → LakeCatResult (Unit {0})) → LakeCatResult (Unit {0})
if_some none f = ok tt
if_some (some a) f = f a

-- `map_err`
unfoldable pub map_err {ℓ} :
    {A : Type ℓ} → (LakeCatError → LakeCatError) → LakeCatResult A → LakeCatResult A
map_err f (ok a) = ok a
map_err f (err e) = err (f e)

module _ {ℓ} {A : Type ℓ} where
  -- `for a in items { check(a)?; }`
  unfoldable pub for_each : (A → LakeCatResult (Unit {0})) → List A → LakeCatResult (Unit {0})
  for_each f [] = ok tt
  for_each f (x ∷ xs) = f x >>= λ _. for_each f xs

  pub for_each-ok :
      (f : A → LakeCatResult (Unit {0})) (xs : List A)
      → All (λ x. f x ≡ ok tt) xs
      → for_each f xs ≡ ok tt
  unfolding for_each ◌>>=◌
  for_each-ok f [] h = refl
  for_each-ok f (x ∷ xs) h = rw h.0 (for_each-ok f xs h.1)

  -- The value and the equation of a step that succeeded.
  pub >>=-eq-ok {κ} :
      {B : Type κ} (m : LakeCatResult A) (f : A → LakeCatResult B) {b : B}
      → (m >>= f) ≡ ok b
      → (a : A) × (m ≡ ok a) × (f a ≡ ok b)
  unfolding ◌>>=◌
  >>=-eq-ok (ok a) f h = (a, refl, h)
  >>=-eq-ok (err e) f h = cc

module _ {ℓ κ} {A : Type ℓ} {B : Type κ} where
  -- `iter().map(f).collect::<LakeCatResult<Vec<_>>>()`
  unfoldable pub collect : (A → LakeCatResult B) → List A → LakeCatResult (List B)
  collect f [] = ok []
  collect f (x ∷ xs) = f x >>= λ y. collect f xs >>= λ ys. ok (y ∷ ys)

-- What the success of a check says.
pub >>-eq-ok {ℓ} :
    {B : Type ℓ} (m : LakeCatResult (Unit {0})) (k : LakeCatResult B) {b : B}
    → (m >> k) ≡ ok b
    → (m ≡ ok tt) × (k ≡ ok b)
unfolding ◌>>◌
>>-eq-ok (ok tt) k h = (refl, h)
>>-eq-ok (err e) k h = cc

pub reject-eq-ok : (b : Bool) (e : LakeCatError) → reject b e ≡ ok tt → b ≡ false
unfolding reject
reject-eq-ok true e h = cc
reject-eq-ok false e h = refl

pub ensure-eq-ok : (b : Bool) (e : LakeCatError) → ensure b e ≡ ok tt → b ≡ true
unfolding ensure
ensure-eq-ok true e h = refl
ensure-eq-ok false e h = cc

pub ensure_that-eq-ok {ℓ} :
    {P : Type ℓ} (d : Dec P) (e : LakeCatError) → ensure_that d e ≡ ok tt → P
unfolding ensure_that
ensure_that-eq-ok (yes p) e h = p
ensure_that-eq-ok (no n) e h = cc

pub ok_or-eq-ok {ℓ} :
    {A : Type ℓ} (o : Option A) (e : LakeCatError) {a : A} → ok_or o e ≡ ok a → o ≡ some a
unfolding ok_or
ok_or-eq-ok (some a) e h = cc
ok_or-eq-ok none e h = cc

pub ok-injective {ℓ} : {A : Type ℓ} {a b : A} → ok a ≡ ok b → a ≡ b
ok-injective h = cc

-- The two halves of an operation that succeeded.
pub ok-pair {ℓ} :
    {A B : Type ℓ} {a c : A} {b d : B}
    → ◌≡◌ {A = LakeCatResult (A × B)} (ok (a, b)) (ok (c, d))
    → (c ≡ a) × (d ≡ b)
ok-pair h = (cc, cc)

pub map_err-eq-ok {ℓ} :
    {A : Type ℓ} (f : LakeCatError → LakeCatError) (m : LakeCatResult A) {a : A}
    → map_err f m ≡ ok a
    → m ≡ ok a
unfolding map_err
map_err-eq-ok f (ok a) h = h
map_err-eq-ok f (err e) h = cc

pub err-ne-ok {ℓ} : {A : Type ℓ} {e : LakeCatError} {a : A} → err e ≡ ok a → ⊥
err-ne-ok h = cc
