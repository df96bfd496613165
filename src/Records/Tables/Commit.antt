-- ===== src/Records/Tables/Commit.antt =====
-- What the validation of a commit and of its record gives, and that a commit keeps a table valid.
use mathlib.Core.Option
use lakecat.Prelude.{
  Text, String, text, ◌≡◌, ◌≢◌, refl, subst, Option, none, some, arith, true, false, is_blank,
  Text-discrete, not_holds,
}
use lakecat.Prelude.Results.{
  LakeCatResult, ok, ◌>>=◌, ◌>>◌, reject, ensure, ok_or, if_some, >>=-eq-ok, >>-eq-ok, reject-eq-ok,
  ensure-eq-ok,
}
use lakecat.Prelude.Json
use lakecat.Prelude.Json.{
  Json, Fields, obj, null, bool, num, float, str, arr, set, is_object, is_positive, get-set_field,
}
use lakecat.Core.Names.{TableIdent}
use lakecat.Records.Types.{TableRecord, TableCommit, TableCommitRecord}
use lakecat.Records.External.{External}
use lakecat.Records.Evidence.{
  validate_idempotency_key_shape, is_sha256, is_blank_some, validate_sha256_evidence,
  validate_idempotency_request_hash_shape,
}
use lakecat.Records.Metadata.{table_metadata_format_version}
use lakecat.Records.Tables.{
  validate_table, validate_commit, validate_for_table, validate_table_metadata_format_version,
}

pub record ValidCommit (commit : TableCommit) : Type 0 where
  pub key_shape :
      (key : Text) → commit.idempotency_key ≡ some key → validate_idempotency_key_shape key ≡ ok tt
  pub hash_shape :
      if_some commit.idempotency_request_hash validate_idempotency_request_hash_shape ≡ ok tt
  pub location : is_blank_some commit.new_metadata_location ≡ false
  pub metadata_object : (m : Json) → commit.new_metadata ≡ some m → is_object m ≡ true
  pub metadata_format :
      (m : Json)
      → commit.new_metadata ≡ some m
      → validate_table_metadata_format_version m "new table metadata" ≡ ok tt

if_some-at {ℓ} :
    {A : Type ℓ} (o : Option A) (f : A → LakeCatResult (Unit {0})) (a : A)
    → if_some o f ≡ ok tt
    → o ≡ some a
    → f a ≡ ok tt
unfolding if_some
if_some-at none f a h e = cc
if_some-at {A} (some b) f a h e = subst (λ x. f x ≡ ok tt) (injected e) h
  where
    injected : {x y : A} → ◌≡◌ {A = Option A} (some x) (some y) → x ≡ y
    injected q = cc

pub validate_commit-ValidCommit :
    (commit : TableCommit) → validate_commit commit ≡ ok tt → ValidCommit commit
unfolding validate_commit
validate_commit-ValidCommit commit h =
    let a = >>-eq-ok _ _ h in
    let b = >>-eq-ok _ _ a.1 in
    let c = >>-eq-ok _ _ b.1 in
    let d = >>-eq-ok _ _ c.1 in
    let e = >>-eq-ok _ _ d.1 in
    record {
      key_shape = λ key keyed. rw keyed at a.0;
      hash_shape = b.0;
      location = reject-eq-ok _ _ d.0;
      metadata_object = λ m p. ensure-eq-ok _ _ (if_some-at _ _ m e.0 p);
      metadata_format = λ m p. if_some-at _ _ m e.1 p;
    }

-- The label only words the message.
format_version_label :
    (m : Json) (label label' : String)
    → validate_table_metadata_format_version m label ≡ ok tt
    → validate_table_metadata_format_version m label' ≡ ok tt
unfolding validate_table_metadata_format_version ◌>>=◌ ok_or ensure
format_version_label m label label' h = ground arith

pub is_object-set :
    (m : Json) (k : Text) (v : Json) → is_object m ≡ true → is_object (set m k v) ≡ true
unfolding set
is_object-set (obj fs) k v h = refl
is_object-set _ k v h = cc

get-set_ne :
    (m : Json) (k j : Text) (v : Json)
    → k ≢ j
    → is_object m ≡ true
    → Json.get (set m k v) j ≡ Json.get m j
unfolding set Json.get
get-set_ne (obj fs) k j v ne h = ground (arith, get-set_field k j v fs)
get-set_ne _ k j v ne h = cc

-- The two members that a commit writes are not the format version.
set-format_version :
    (m : Json) (k : Text) (v : Json)
    → k ≢ text "format-version"
    → is_object m ≡ true
    → table_metadata_format_version (set m k v) ≡ table_metadata_format_version m
unfolding table_metadata_format_version
set-format_version m k v ne h = rw (get-set_ne m k (text "format-version") v ne h)

version_ne : text "lakecat:version" ≢ text "format-version"
unfolding text Text-discrete
version_ne = not_holds (Text-discrete _ _) refl

hash_ne : text "lakecat:last-request-hash" ≢ text "format-version"
unfolding text Text-discrete
hash_ne = not_holds (Text-discrete _ _) refl

pub set_twice-format :
    (m : Json) (v w : Json) (label : String)
    → is_object m ≡ true
    → validate_table_metadata_format_version m label ≡ ok tt
    → validate_table_metadata_format_version
        (set (set m (text "lakecat:version") v) (text "lakecat:last-request-hash") w)
        label
      ≡ ok tt
unfolding validate_table_metadata_format_version
set_twice-format m v w label object h =
    let first = set-format_version m (text "lakecat:version") v version_ne object in
    let second =
      set-format_version (set m (text "lakecat:version") v) (text "lakecat:last-request-hash") w
        hash_ne (is_object-set m _ v object) in
    rw (second, first) h

pub record ValidTable (t : TableRecord) : Type 0 where
  pub location : is_blank t.location ≡ false
  pub metadata_location : is_blank_some t.metadata_location ≡ false
  pub metadata_object : is_object t.metadata ≡ true
  pub metadata_format : validate_table_metadata_format_version t.metadata "table metadata" ≡ ok tt

pub validate_table-ValidTable : (t : TableRecord) → validate_table t ≡ ok tt → ValidTable t
unfolding validate_table
validate_table-ValidTable t h =
    let a = >>-eq-ok _ _ h in
    let b = >>-eq-ok _ _ a.1 in
    let c = >>-eq-ok _ _ b.1 in
    record {
      location = reject-eq-ok _ _ a.0;
      metadata_location = reject-eq-ok _ _ b.0;
      metadata_object = ensure-eq-ok _ _ c.0;
      metadata_format = c.1;
    }

pub ValidTable-validate_table : (t : TableRecord) → ValidTable t → validate_table t ≡ ok tt
unfolding validate_table ◌>>◌ ◌>>=◌ reject ensure
ValidTable-validate_table t v = ground arith

-- The metadata that a commit starts from, its own or the table's, is a valid object.
abbrev pub base_metadata : TableCommit → TableRecord → Json
base_metadata commit t = Option.get_or commit.new_metadata t.metadata

pub base_metadata-valid :
    (commit : TableCommit) (t : TableRecord)
    → ValidCommit commit
    → ValidTable t
    → (is_object (base_metadata commit t) ≡ true)
      × (validate_table_metadata_format_version (base_metadata commit t) "table metadata" ≡ ok tt)
base_metadata-valid commit t vc vt = split commit.new_metadata refl
  where
    split :
        (o : Option Json)
        → commit.new_metadata ≡ o
        → (is_object (Option.get_or o t.metadata) ≡ true)
          × (validate_table_metadata_format_version (Option.get_or o t.metadata) "table metadata"
              ≡ ok tt)
    split none e = (vt.metadata_object, vt.metadata_format)
    split (some m) e = (
      vc.metadata_object m e,
      format_version_label m "new table metadata" "table metadata" (vc.metadata_format m e),
    )

-- What the validation of a commit's record says of its hash.
pub validate_for_table-sha256 :
    ⦃ext : External⦄ (row : TableCommitRecord) (ident : TableIdent)
    → validate_for_table row ident ≡ ok tt
    → is_sha256 row.request_hash ≡ true
unfolding validate_for_table validate_sha256_evidence
validate_for_table-sha256 row ident h =
    let a = >>-eq-ok _ _ h in
    let b = >>-eq-ok _ _ a.1 in
    let c = >>-eq-ok _ _ b.1 in
    let d = >>-eq-ok _ _ c.1 in
    let e = >>-eq-ok _ _ d.1 in
    let f = >>-eq-ok _ _ e.1 in
    let g = >>=-eq-ok _ _ f.1 in
    let i = >>-eq-ok _ _ g.2 in
    let j = >>=-eq-ok _ _ i.1 in let k = >>-eq-ok _ _ j.2 in ensure-eq-ok _ _ (>>-eq-ok _ _ k.1).0

-- The hash that is kept for a replay is full evidence, given or computed.
pub lookup_hash-sha256 :
    (commit : TableCommit) (hash : Text)
    → ValidCommit commit
    → is_sha256 hash ≡ true
    → is_sha256 (Option.get_or commit.idempotency_request_hash hash) ≡ true
unfolding validate_idempotency_request_hash_shape
lookup_hash-sha256 commit hash v h = split commit.idempotency_request_hash refl
  where
    split :
        (o : Option Text)
        → commit.idempotency_request_hash ≡ o
        → is_sha256 (Option.get_or o hash) ≡ true
    split none e = h
    split (some given) e = ensure-eq-ok _ _ (if_some-at _ _ given v.hash_shape e)
