-- ===== src/Core/Parse.antt =====
-- How namespaces and principals are read from strings and made (crates/lakecat-core/src/lib.rs).
use lakecat.Prelude.{
  Text, Text-discrete, text, trim, to_ascii_lowercase, is_blank, is_whitespace, keep, any, all,
  holds, if◌then◌else◌, Bool, true, false, not, ◌≡◌, refl, ap, ◌∙◌, List, [], ◌∷◌, String, map, All,
  arith, ℕ, Bool-cases, inl, inr,
}
use lakecat.Prelude.Lists.{split}
use lakecat.Prelude.Decimal.{Lacks}
use lakecat.Prelude.Splits.{split-join, trim-kept}
use lakecat.Prelude.Results.{
  LakeCatResult, ok, err, invalid_argument, reject, for_each, ◌>>◌, >>-eq-ok, >>=-eq-ok,
  reject-eq-ok, ensure-eq-ok,
}
use lakecat.Core.Names.{Namespace, is_empty, is_name_char, validate_name, new_namespace, path}
use lakecat.Records.Types.{Principal, PrincipalKind}

-- `Namespace::from_str`
unfoldable pub namespace_from_str : Text → LakeCatResult Namespace
namespace_from_str value =
    new_namespace (keep (λ part. not (is_empty part)) (map trim (split b'.' value)))

-- `Namespace::root_default`
unfoldable pub root_default : Namespace
root_default = text "default" ∷ []

abbrev pub is_one_of : Text → List String → Bool
is_one_of value names = any (λ (name : String). holds (Text-discrete value (text name))) names

-- `PrincipalKind::from_str`
unfoldable pub kind_from_str : Text → LakeCatResult PrincipalKind
kind_from_str given =
    let value = to_ascii_lowercase (trim given) in
    if is_one_of value ("anonymous" ∷ [])
    then ok PrincipalKind.anonymous
    else if is_one_of value ("human" ∷ "user" ∷ [])
    then ok PrincipalKind.human
    else if is_one_of value ("service" ∷ "service-account" ∷ [])
    then ok PrincipalKind.service
    else if is_one_of value ("agent" ∷ "typedid-agent" ∷ "typedid" ∷ "did" ∷ [])
    then ok PrincipalKind.agent
    else err (invalid_argument "unknown principal kind: {other}" (value ∷ []))

-- `Principal::anonymous`
unfoldable pub anonymous_principal : Principal
anonymous_principal = record { subject = text "anonymous"; kind = PrincipalKind.anonymous }

-- `Principal::new`
unfoldable pub new_principal : Text → PrincipalKind → LakeCatResult Principal
new_principal subject kind = do
  reject (is_blank subject) (invalid_argument "principal subject must not be empty" [])
  ok (record { subject = subject; kind = kind })

name_char-visible : (c : ℕ) → is_name_char c ≡ true → not (is_whitespace c) ≡ true
unfolding is_whitespace
name_char-visible c h = ground arith

name-visible : (t : Text) → all is_name_char t ≡ true → all (λ c. not (is_whitespace c)) t ≡ true
unfolding all
name-visible [] h = refl
name-visible (c ∷ cs) h = elim (Bool-cases (is_name_char c)) [
  | inl good ↦ rw (name_char-visible c good, name-visible cs (ground arith)) refl
  | inr bad ↦ absurd (ground arith)
]

-- The parts that the constructor accepts are kept by the reader as they are.
parts_kept :
    (parts : List Text)
    → for_each (validate_name "namespace component") parts ≡ ok tt
    → keep (λ part. not (is_empty part)) (map trim parts) ≡ parts
unfolding keep for_each validate_name
parts_kept [] h = refl
parts_kept (p ∷ ps) h =
    let here = >>-eq-ok _ _ (>>=-eq-ok _ _ h).1 in
    let full : is_empty p ≡ false = reject-eq-ok _ _ here.0 in
    rw
      (
        trim-kept p (name-visible p (ensure-eq-ok _ _ here.1)),
        full,
        parts_kept ps (>>=-eq-ok _ _ h).2,
      )
      refl

-- A namespace that its constructor accepts is read back from its path, if none of its components
-- holds a dot.
pub namespace_from_str-path :
    (ns : Namespace)
    → new_namespace ns ≡ ok ns
    → All (Lacks b'.') ns
    → namespace_from_str (path ns) ≡ ok ns
unfolding namespace_from_str path new_namespace
namespace_from_str-path [] h dots =
    let full : true ≡ false = reject-eq-ok _ _ (>>-eq-ok _ _ h).0 in cc
namespace_from_str-path (p ∷ ps) h dots =
    let named = (>>-eq-ok _ _ (>>-eq-ok _ _ h).1).0 in
    ap new_namespace (
      ap (λ ts. keep (λ part. not (is_empty part)) (map trim ts)) (split-join b'.' p ps dots)
      ∙ parts_kept (p ∷ ps) named)
    ∙ h
