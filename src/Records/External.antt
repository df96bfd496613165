-- ===== src/Records/External.antt =====
-- What the store calls and does not implement: SHA-256 and its hexadecimal printing, the JSON
-- writer, the URL parser, and the encoders and decoders that serde derives.
use lakecat.Prelude.{Text, Bool, Option, ◌≡◌, true, text_len, is_ascii_hexdigit, all}
use lakecat.Prelude.Json.{Json}
use lakecat.Core.Names.{TableIdent}
use lakecat.Records.Types.{
  DateTime, Principal, TableRecord, TableCommitRecord, SoftDeleteRecord, ViewRecord,
  ViewVersionReceipt,
}

-- `url::Url`, as far as it is read
pub record Url : Type 0 where
  pub scheme : Text
  pub username : Text
  pub has_password : Bool
  pub has_query : Bool
  pub has_fragment : Bool

pub record External : Type 0 where
  -- `hex::encode(Sha256::digest(text.as_bytes()))`
  pub sha256_hex : Text → Text
  -- `serde_json::to_writer`, `none` for an encoding error
  pub to_writer : Json → Option Text
  -- `Url::parse`, `none` for an error
  pub url_parse : Text → Option Url
  -- `DateTime::to_rfc3339`
  pub to_rfc3339 : DateTime → Text
  -- the derived `Serialize` and `Deserialize`
  pub principal_value : Principal → Json
  pub principal_from_value : Json → Option Principal
  pub table_ident_value : TableIdent → Json
  pub table_ident_from_value : Json → Option TableIdent
  pub table_record_value : TableRecord → Json
  pub commit_record_value : TableCommitRecord → Json
  pub soft_delete_value : SoftDeleteRecord → Json
  pub view_value : ViewRecord → Json
  pub view_receipt_value : ViewVersionReceipt → Json

-- What is documented of them: a digest of 32 bytes is printed as 64 hexadecimal digits, and a
-- JSON value with string keys is encoded without an error.
pub record IsDocumented (ext : External) : Type 0 where
  pub digest_len : (t : Text) → text_len (ext.sha256_hex t) ≡ 64
  pub digest_hex : (t : Text) → all is_ascii_hexdigit (ext.sha256_hex t) ≡ true
  pub encodes : (v : Json) → (t : Text) × (ext.to_writer v ≡ Option.some t)
