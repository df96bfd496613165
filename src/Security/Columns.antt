-- ===== src/Security/Columns.antt =====
-- The column lists of crates/lakecat-security/src/lib.rs. Both have a way for short lists and one
-- with a hash set; a set of strings is the list of its members.
pub mod Sets
use lakecat.Prelude.{
  Text, Text-discrete, any, keep, length, leb, ltb, holds, if◌then◌else◌, Bool-cases, ℕ, ◌≡◌, refl,
  ap, sym, ◌∙◌, inl, inr, Bool, true, false, not, ◌&&◌, ◌||◌, List, [], ◌∷◌, ◌++◌, arith,
}
use mathlib.Core.List.{append_assoc, append-nil}

abbrev pub linear_column_lookup_max : ℕ
linear_column_lookup_max = 32

unfoldable pub has : Text → List Text → Bool
has column columns = any (λ c. holds (Text-discrete c column)) columns

-- `HashSet::insert`
unfoldable pub insert_seen : Text → List Text → List Text
insert_seen column seen = if has column seen then seen else column ∷ seen

-- which columns `insert` reports as new
unfoldable pub keep_flags : (seen columns : List Text) → List Bool
keep_flags seen [] = []
keep_flags seen (c ∷ cs) = not (has c seen) ∷ keep_flags (insert_seen c seen) cs

-- `zip` and `filter_map`
unfoldable pub kept : List Text → List Bool → List Text
kept [] flags = []
kept (c ∷ cs) [] = []
kept (c ∷ cs) (flag ∷ flags) = let rest = kept cs flags in if flag then c ∷ rest else rest

unfoldable pub push_new : (out columns : List Text) → List Text
push_new out [] = out
push_new out (c ∷ cs) = push_new (if has c out then out else out ++ c ∷ []) cs

unfoldable pub dedup_columns : List Text → List Text
dedup_columns columns =
    if ltb linear_column_lookup_max (length columns)
    then kept columns (keep_flags [] columns)
    else push_new [] columns

-- `collect::<HashSet<_>>()`
unfoldable pub to_seen : List Text → List Text
to_seen [] = []
to_seen (c ∷ cs) = insert_seen c (to_seen cs)

unfoldable pub retain_allowed_columns : (requested allowed : List Text) → List Text
retain_allowed_columns requested allowed =
    if leb (length allowed) linear_column_lookup_max
    then keep (λ c. has c allowed) requested
    else keep (λ c. has c (to_seen allowed)) requested

unfoldable pub intersect_columns : (left right : List Text) → List Text
intersect_columns left right = retain_allowed_columns left right
