-- ===== src/Prelude/Texts.antt =====
-- Rust strings as lists of code points, with the standard library's functions that the program
-- calls on them. `len` counts the bytes of UTF-8.
use Prim.Native.Nat.{ℕ, zero, suc, ◌+◌, ◌/◌, ◌%◌}
use Prim.Native.Char.{code}
use Prim.Native.String.{String}
use mathlib.Core.Path.{◌≡◌, refl}
use mathlib.Core.Bool.{Bool, true, false, ◌&&◌, ◌||◌}
use mathlib.Core.List.{List, [], ◌∷◌, ◌++◌, map, reverse}
use mathlib.Core.Option.{Option, none, some}
use native.Mathlib.Decide.{ℕ_discrete}
use lakecat.Prelude.Tests.{ltb, leb, ◌==◌, if◌then◌else◌, holds, all}

abbrev pub Text : Type 0
Text = List ℕ

codes : String → Text
codes String.[] = []
codes (String.◌∷◌ c s) = code c ∷ codes s

-- A literal of the source.
unfoldable pub text : String → Text
unfolding codes
text s = codes s

-- The library's decision for lists stays shut; this one runs.
module _ {ℓ} {A : Type ℓ} where
  both : {x y : A} {xs ys : List A} → Dec (x ≡ y) → Dec (xs ≡ ys) → Dec (x ∷ xs ≡ y ∷ ys)
  both (yes p) (yes q) = yes (λ i. p i ∷ q i)
  both (yes p) (no n) = no (λ e. n (cc))
  both (no n) q = no (λ e. n (cc))

  unfoldable pub list_discrete : Discrete A → Discrete (List A)
  unfolding both
  list_discrete d [] [] = yes refl
  list_discrete d [] (y ∷ ys) = no (λ e. cc)
  list_discrete d (x ∷ xs) [] = no (λ e. cc)
  list_discrete d (x ∷ xs) (y ∷ ys) = both (d x y) (list_discrete d xs ys)

unfoldable pub Text-discrete : Discrete Text
unfolding list_discrete ℕ_discrete
Text-discrete = list_discrete ℕ_discrete

unfoldable pub Texts-discrete : Discrete (List Text)
unfolding Text-discrete list_discrete
Texts-discrete = list_discrete Text-discrete

-- `a < b` on strings: UTF-8 keeps the order of code points, so the order is lexicographic.
unfoldable pub text_less : Text → Text → Bool
text_less [] [] = false
text_less [] (d ∷ ds) = true
text_less (c ∷ cs) [] = false
text_less (c ∷ cs) (d ∷ ds) =
    let rest = text_less cs ds in if ltb c d then true else if c == d then rest else false

-- The same order on vectors of strings.
unfoldable pub texts_less : List Text → List Text → Bool
unfolding text_less Text-discrete
texts_less [] [] = false
texts_less [] (d ∷ ds) = true
texts_less (c ∷ cs) [] = false
texts_less (c ∷ cs) (d ∷ ds) =
    let rest = texts_less cs ds in
    if text_less c d then true else if holds (Text-discrete c d) then rest else false

-- `char::len_utf8`
abbrev pub utf8_width : ℕ → ℕ
utf8_width c = if ltb c 0x80 then 1 else if ltb c 0x800 then 2 else if ltb c 0x10000 then 3 else 4

-- `str::len`
unfoldable pub text_len : Text → ℕ
text_len [] = 0
text_len (c ∷ cs) = utf8_width c + text_len cs

-- `char::is_ascii_alphanumeric`
abbrev pub is_ascii_alphanumeric : ℕ → Bool
is_ascii_alphanumeric c =
    (leb b'0' c && leb c b'9') || (leb b'A' c && leb c b'Z') || (leb b'a' c && leb c b'z')

-- `u8::is_ascii_hexdigit`
unfoldable pub is_ascii_hexdigit : ℕ → Bool
is_ascii_hexdigit c =
    (leb b'0' c && leb c b'9') || (leb b'A' c && leb c b'F') || (leb b'a' c && leb c b'f')

-- `char::is_whitespace`: the code points with the property White_Space
unfoldable pub is_whitespace : ℕ → Bool
is_whitespace c =
    (leb 0x9 c && leb c 0xd)
    || c == 0x20
    || c == 0x85
    || c == 0xa0
    || c == 0x1680
    || (leb 0x2000 c && leb c 0x200a)
    || c == 0x2028
    || c == 0x2029
    || c == 0x202f
    || c == 0x205f
    || c == 0x3000

-- `value.trim().is_empty()`: nothing but white space
unfoldable pub is_blank : Text → Bool
unfolding is_whitespace all
is_blank t = all is_whitespace t

unfoldable pub trim_start : Text → Text
unfolding is_whitespace
trim_start [] = []
trim_start (c ∷ cs) = let rest = trim_start cs in if is_whitespace c then rest else c ∷ cs

-- `str::trim`
unfoldable pub trim : Text → Text
unfolding trim_start
trim t = reverse (trim_start (reverse (trim_start t)))

-- `char::to_ascii_lowercase`, for each character
unfoldable pub to_ascii_lowercase : Text → Text
to_ascii_lowercase t = map (λ c. if leb b'A' c && leb c b'Z' then c + 32 else c) t

unfoldable pub starts_with : Text → Text → Bool
starts_with t [] = true
starts_with [] (p ∷ ps) = false
starts_with (c ∷ cs) (p ∷ ps) = c == p && starts_with cs ps

unfoldable pub strip_prefix : Text → Text → Option Text
strip_prefix [] t = some t
strip_prefix (p ∷ ps) [] = none
strip_prefix (p ∷ ps) (c ∷ cs) = let rest = strip_prefix ps cs in if p == c then rest else none

-- `str::contains`, with a string for a pattern
unfoldable pub contains : Text → Text → Bool
unfolding starts_with
contains [] pattern_text = starts_with [] pattern_text
contains (c ∷ cs) pattern_text = starts_with (c ∷ cs) pattern_text || contains cs pattern_text

-- `[String]::join`
unfoldable pub join : Text → List Text → Text
join sep [] = []
join sep (x ∷ []) = x
join sep (x ∷ y ∷ ys) = x ++ (sep ++ join sep (y ∷ ys))

-- The decimal digits of a number below the bound, the last one at the end.
unfoldable pub digits_below : (bound n : ℕ) → Text
digits_below zero n = []
digits_below (suc bound) n = elim (ltb n 10) [
  | true ↦ (b'0' + n) ∷ []
  | false ↦ digits_below bound (n / 10) ++ (b'0' + n % 10) ∷ []
]

-- `usize::to_string`: the decimal digits
unfoldable pub to_string : ℕ → Text
unfolding digits_below
to_string n = digits_below (suc n) n
