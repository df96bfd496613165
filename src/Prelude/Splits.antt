-- ===== src/Prelude/Splits.antt =====
-- Splitting undoes joining, and trimming keeps a text without white space.
use mathlib.Core.Path.{◌≡◌, refl, sym, ap, ◌∙◌}
use mathlib.Core.Logic.{inl, inr}
use mathlib.Core.Bool.{Bool, true, false, not}
use mathlib.Core.List.{
  List, [], ◌∷◌, ◌++◌, append_assoc, append-nil, reverse, reverse_aux, reverse-reverse,
}
use native.Mathlib.Omega.{arith}
use Prim.Native.Nat.{ℕ}
use lakecat.Prelude.Tests.{All, Bool-cases, ◌==◌, all}
use lakecat.Prelude.Texts.{Text, join, is_whitespace, trim_start, trim}
use lakecat.Prelude.Lists.{split, split_from}
use lakecat.Prelude.Decimal.{Lacks}

split_from-other :
    (c : ℕ) (part : Text) (d : ℕ) (ds : Text)
    → (d == c) ≡ false
    → split_from c part (d ∷ ds) ≡ split_from c (part ++ d ∷ []) ds
unfolding split_from
split_from-other c part d ds h = rw (h, split_from) refl

split_from-separator :
    (c : ℕ) (part ds : Text) → split_from c part (c ∷ ds) ≡ part ∷ split_from c [] ds
unfolding split_from
split_from-separator c part ds =
    let here : (c == c) ≡ true = ground arith in rw (here, split_from) refl

split_from-append :
    (c : ℕ) (part p rest : Text)
    → Lacks c p
    → split_from c part (p ++ rest) ≡ split_from c (part ++ p) rest
unfolding split_from
split_from-append c part [] rest h = rw append-nil refl
split_from-append c part (d ∷ ds) rest h = elim (Bool-cases (d == c)) [
  | inl same ↦ absurd (h.0 (ground arith))
  | inr other ↦
      split_from-other c part d (ds ++ rest) other
      ∙ (split_from-append c (part ++ d ∷ []) ds rest h.1
          ∙ ap (λ t. split_from c t rest) (append_assoc part (d ∷ []) ds))
]

-- A text that is joined of parts without the separator is split into these parts.
pub split-join :
    (c : ℕ) (p : Text) (ps : List Text)
    → All (Lacks c) (p ∷ ps)
    → split c (join (c ∷ []) (p ∷ ps)) ≡ p ∷ ps
unfolding split join split_from
split-join c p [] h = sym (ap (split_from c []) (append-nil p)) ∙ split_from-append c [] p [] h.0
split-join c p (q ∷ qs) h =
    split_from-append c [] p (c ∷ join (c ∷ []) (q ∷ qs)) h.0
    ∙ (split_from-separator c p (join (c ∷ []) (q ∷ qs))
        ∙ ap (λ ts. p ∷ ts) (split-join c q qs h.1))

trim_start-kept : (t : Text) → all (λ c. not (is_whitespace c)) t ≡ true → trim_start t ≡ t
unfolding trim_start all
trim_start-kept [] h = refl
trim_start-kept (c ∷ cs) h = let keep : is_whitespace c ≡ false = ground arith in rw keep refl

all-reverse_aux :
    (p : ℕ → Bool) (t r : Text) → all p t ≡ true → all p r ≡ true → all p (reverse_aux t r) ≡ true
unfolding all
all-reverse_aux p [] r h k = k
all-reverse_aux p (c ∷ cs) r h k = all-reverse_aux p cs (c ∷ r) (ground arith) (ground arith)

pub trim-kept : (t : Text) → all (λ c. not (is_whitespace c)) t ≡ true → trim t ≡ t
unfolding trim all
trim-kept t h =
    rw (trim_start-kept t h, trim_start-kept (reverse t) (all-reverse_aux _ t [] h refl))
      (reverse-reverse t)
