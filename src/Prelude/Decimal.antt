-- ===== src/Prelude/Decimal.antt =====
-- Decimal printing is injective, prints digits and is undone by parsing; splitting a text at the first separator.
use Prim.Native.Nat.{ℕ, zero, suc, ◌+◌, ◌-◌, ◌*◌, ◌/◌, ◌%◌, ◌^◌, ◌<◌}
use mathlib.Core.Option.{Option, none, some}
use mathlib.Core.Path.{◌≡◌, refl, sym, ap, ◌∙◌}
use mathlib.Core.Logic.{◌≢◌, inl, inr}
use mathlib.Core.Bool.{Bool, true, false, ◌&&◌}
use mathlib.Core.List.{[], ◌∷◌, ◌++◌}
use native.Mathlib.Omega.{arith}
use lakecat.Prelude.Tests.{All, all, ltb, leb, ◌==◌, if◌then◌else◌, Bool-cases}
use lakecat.Prelude.Texts.{Text, text_len, to_string, digits_below}

-- the number that digits stand for, after n
unfoldable pub value_from : ℕ → Text → ℕ
value_from n [] = n
value_from n (c ∷ cs) = value_from (n * 10 + (c - 48)) cs

value_from-append :
    (n c : ℕ) (cs : Text) → value_from n (cs ++ c ∷ []) ≡ value_from n cs * 10 + (c - 48)
unfolding value_from
value_from-append n c [] = refl
value_from-append n c (d ∷ cs) = value_from-append (n * 10 + (d - 48)) c cs

below_ten : (n : ℕ) → ltb n 10 ≡ true → n < 10
below_ten n h = ground arith

ten_or_more : (n bound : ℕ) → n < suc bound → ltb n 10 ≡ false → n / 10 < bound
ten_or_more n bound h big = omega (arith, big_enough)
  where
    big_enough : n < 10 → ⊥
    big_enough small = ground arith

value-digits_below : (bound n : ℕ) → n < bound → value_from 0 (digits_below bound n) ≡ n
unfolding digits_below value_from
value-digits_below zero n h = absurd (omega arith)
value-digits_below (suc bound) n h = elim (Bool-cases (ltb n 10)) [
  | inl small ↦ rw (small, digits_below) (omega arith)
  | inr big ↦
      rw (big, digits_below)
        (value_from-append 0 (b'0' + n % 10) (digits_below bound (n / 10))
          ∙ (ap (λ v. v * 10 + (b'0' + n % 10 - 48))
                (value-digits_below bound (n / 10) (ten_or_more n bound h big))
              ∙ omega arith))
]

value-to_string : (n : ℕ) → value_from 0 (to_string n) ≡ n
unfolding to_string
value-to_string n = value-digits_below (suc n) n (omega arith)

pub to_string-injective : (n m : ℕ) → to_string n ≡ to_string m → n ≡ m
to_string-injective n m e = sym (value-to_string n) ∙ (ap (value_from 0) e ∙ value-to_string m)

-- `char::is_ascii_digit`
abbrev pub is_ascii_digit : ℕ → Bool
is_ascii_digit c = leb b'0' c && leb c b'9'

unfoldable pub parse_digits : Text → Option ℕ
unfolding value_from all
parse_digits [] = none
parse_digits (c ∷ cs) =
    if all is_ascii_digit (c ∷ cs) && ltb (value_from 0 (c ∷ cs)) (2 ^ 64)
    then some (value_from 0 (c ∷ cs))
    else none

-- `str::parse::<u64>`, and `parse::<usize>` on a 64-bit target: a sign `+`, then digits
unfoldable pub parse_u64 : Text → Option ℕ
unfolding parse_digits
parse_u64 [] = none
parse_u64 (c ∷ cs) = parse_digits (if c == b'+' then cs else c ∷ cs)

all-digits-append :
    (cs : Text) (d : ℕ)
    → all is_ascii_digit cs ≡ true
    → is_ascii_digit d ≡ true
    → all is_ascii_digit (cs ++ d ∷ []) ≡ true
unfolding all
all-digits-append [] d h hd = rw hd
all-digits-append (c ∷ cs) d h hd = ground (arith, all-digits-append cs d)

digits_below_digits : (bound n : ℕ) → all is_ascii_digit (digits_below bound n) ≡ true
unfolding digits_below all
digits_below_digits zero n = refl
digits_below_digits (suc bound) n = elim (Bool-cases (ltb n 10)) [
  | inl small ↦ rw (small, digits_below) (ground arith)
  | inr big ↦
      rw (big, digits_below)
        (all-digits-append (digits_below bound (n / 10)) (b'0' + n % 10)
          (digits_below_digits bound (n / 10)) (ground arith))
]

-- The first character of a printed number is a digit, so no sign is stripped.
parse-digits :
    (t : Text) (n : ℕ)
    → all is_ascii_digit t ≡ true
    → t ≢ []
    → value_from 0 t ≡ n
    → n < 2 ^ 64
    → parse_u64 t ≡ some n
unfolding parse_u64 parse_digits all
parse-digits [] n h ne e lt = absurd (ne refl)
parse-digits (c ∷ cs) n h ne e lt = ground arith

digits_below-ne : (bound n : ℕ) → n < bound → digits_below bound n ≢ []
unfolding digits_below
digits_below-ne zero n h = absurd (omega arith)
digits_below-ne (suc bound) n h = elim (Bool-cases (ltb n 10)) [
  | inl small ↦ rw (small, digits_below) (λ e. cc)
  | inr big ↦ rw (big, digits_below) (append-ne (digits_below bound (n / 10)) (b'0' + n % 10))
]
  where
    append-ne : (t : Text) (c : ℕ) → t ++ c ∷ [] ≢ []
    append-ne [] c e = cc
    append-ne (d ∷ t) c e = cc

pub parse_u64-to_string : (n : ℕ) → n < 2 ^ 64 → parse_u64 (to_string n) ≡ some n
unfolding to_string
parse_u64-to_string n h =
    parse-digits (digits_below (suc n) n) n (digits_below_digits (suc n) n)
      (digits_below-ne (suc n) n (omega arith)) (value-digits_below (suc n) n (omega arith)) h

abbrev pub Lacks : ℕ → Text → Type 0
Lacks c = All (λ d. d ≢ c)

Lacks-append : (c d : ℕ) (cs : Text) → Lacks c cs → d ≢ c → Lacks c (cs ++ d ∷ [])
Lacks-append c d [] h ne = (ne, tt)
Lacks-append c d (e ∷ cs) h ne = (h.0, Lacks-append c d cs h.1 ne)

digits_below-Lacks : (bound n : ℕ) → Lacks b':' (digits_below bound n)
unfolding digits_below
digits_below-Lacks zero n = tt
digits_below-Lacks (suc bound) n = elim (Bool-cases (ltb n 10)) [
  | inl small ↦ rw (small, digits_below) (((λ e. ground arith), tt))
  | inr big ↦
      rw (big, digits_below)
        (Lacks-append b':' (b'0' + n % 10) (digits_below bound (n / 10))
          (digits_below-Lacks bound (n / 10)) (λ e. omega arith))
]

pub to_string-Lacks : (n : ℕ) → Lacks b':' (to_string n)
unfolding to_string
to_string-Lacks n = digits_below-Lacks (suc n) n

-- Two texts without the separator that are followed by it are the same.
pub split_first :
    (c : ℕ) (xs ys rest rest' : Text)
    → Lacks c xs
    → Lacks c ys
    → xs ++ c ∷ rest ≡ ys ++ c ∷ rest'
    → (xs ≡ ys) × (rest ≡ rest')
split_first c [] [] rest rest' hx hy e = (refl, cc)
split_first c [] (y ∷ ys) rest rest' hx hy e = absurd (hy.0 (cc))
split_first c (x ∷ xs) [] rest rest' hx hy e = absurd (hx.0 (cc))
split_first c (x ∷ xs) (y ∷ ys) rest rest' hx hy e =
    let ih = split_first c xs ys rest rest' hx.1 hy.1 (cc) in (cc (ih.0), ih.1)

-- Prefixes of one text that take as many bytes are the same.
pub split_len :
    (xs ys rest rest' : Text)
    → text_len xs ≡ text_len ys
    → xs ++ rest ≡ ys ++ rest'
    → (xs ≡ ys) × (rest ≡ rest')
unfolding text_len
split_len [] [] rest rest' h e = (refl, e)
split_len [] (y ∷ ys) rest rest' h e = absurd (ground arith)
split_len (x ∷ xs) [] rest rest' h e = absurd (ground arith)
split_len (x ∷ xs) (y ∷ ys) rest rest' h e =
    let same : x ≡ y = cc in
    let ih = split_len xs ys rest rest' (ground arith) (cc) in (cc (ih.0, same), ih.1)
