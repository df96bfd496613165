-- ===== src/Prelude/Json.antt =====
-- JSON values, with the accessors of `serde_json::Value` that the program calls. Objects keep
-- their members in the order of the keys.
use Prim.Native.Nat.{ℕ, ◌^◌}
use Prim.Native.String.{String}
use mathlib.Core.Path.{◌≡◌, refl}
use mathlib.Core.Bool.{Bool, true, false}
use mathlib.Core.Logic.{ite}
use mathlib.Core.Option.{Option, none, some}
use mathlib.Core.List.{List, [], ◌∷◌}
use native.Mathlib.Omega.{arith}
use lakecat.Prelude.Tests.{ltb, if◌then◌else◌}
use lakecat.Prelude.Texts.{Text, Text-discrete, text, text_less}

-- `negsuc n` is -(n + 1).
pub data ℤ : Type 0 where
  pos : ℕ → ℤ
  negsuc : ℕ → ℤ

mutual
  pub data Json : Type 0 where
    null : Json
    bool : Bool → Json
    num : ℤ → Json
    float : ℕ → Json  -- a number that is no integer, by its bits
    str : Text → Json
    arr : Items → Json
    obj : Fields → Json

  pub data Items : Type 0 where
    nil : Items
    cons : Json → Items → Items

  pub data Fields : Type 0 where
    end : Fields
    field : Text → Json → Fields → Fields

unfoldable pub get_field : Text → Fields → Option Json
get_field k end = none
get_field k (field j v fs) = ite (Text-discrete j k) (some v) (get_field k fs)

unfoldable pub set_field : Text → Json → Fields → Fields
set_field k v end = field k v end
set_field k v (field j w fs) =
    let rest = set_field k v fs in
    ite (Text-discrete j k) (field k v fs)
      (if text_less k j then field k v (field j w fs) else field j w rest)

-- `Value::get`, with a key
unfoldable pub get : Json → Text → Option Json
unfolding get_field
get (obj fs) k = get_field k fs
get null k = none
get (bool b) k = none
get (num z) k = none
get (float f) k = none
get (str t) k = none
get (arr xs) k = none

-- `value[k] = v`: on `null` it makes an object. Any other value that is no object panics; the
-- program writes only to values that it has checked to be objects, and here they are unchanged.
unfoldable pub set : Json → Text → Json → Json
unfolding set_field
set (obj fs) k v = obj (set_field k v fs)
set null k v = obj (field k v end)
set other k v = other

abbrev pub is_object : Json → Bool
is_object (obj fs) = true
is_object _ = false

abbrev pub is_array : Json → Bool
is_array (arr xs) = true
is_array _ = false

abbrev pub is_null : Json → Bool
is_null null = true
is_null _ = false

abbrev pub as_str : Json → Option Text
as_str (str t) = some t
as_str _ = none

abbrev pub fits_i64 : ℤ → Bool
fits_i64 (pos n) = ltb n (2 ^ 63)
fits_i64 (negsuc n) = ltb n (2 ^ 63)

abbrev pub as_i64 : Json → Option ℤ
as_i64 (num z) = if fits_i64 z then some z else none
as_i64 _ = none

-- `i32::try_from`
abbrev pub try_i32 : ℤ → Option ℤ
try_i32 (pos n) = if ltb n (2 ^ 31) then some (pos n) else none
try_i32 (negsuc n) = if ltb n (2 ^ 31) then some (negsuc n) else none

abbrev pub is_positive : ℤ → Bool
is_positive (pos n) = ltb 0 n
is_positive (negsuc n) = false

abbrev pub is_negative : ℤ → Bool
is_negative (pos n) = false
is_negative (negsuc n) = true

abbrev pub string : String → Json
string s = str (text s)

abbrev pub option : Option Json → Json
option none = null
option (some v) = v

-- `json!({ ... })`
unfoldable pub object : List (String × Json) → Json
unfolding set
object [] = obj end
object ((k, v) ∷ rest) = set (object rest) (text k) v

pub get-set_field :
    (k j : Text) (v : Json) (fs : Fields)
    → get_field j (set_field k v fs) ≡ ite (Text-discrete k j) (some v) (get_field j fs)
unfolding get_field set_field
get-set_field k j v end = refl
get-set_field k j v (field i w fs) = ground (arith, get-set_field k j v fs)

-- A vector, as an array.
unfoldable pub array : List Json → Json
array xs = arr (items xs)
  where
    items : List Json → Items
    items [] = nil
    items (y ∷ ys) = cons y (items ys)

unfoldable pub list_of : Items → List Json
list_of nil = []
list_of (cons y ys) = y ∷ list_of ys

-- `Value::as_array`
abbrev pub as_array : Json → Option (List Json)
as_array (arr xs) = some (list_of xs)
as_array _ = none

-- `Value::as_u64`
abbrev pub as_u64 : Json → Option ℕ
as_u64 (num (pos n)) = if ltb n (2 ^ 64) then some n else none
as_u64 _ = none
