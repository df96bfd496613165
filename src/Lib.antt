-- ===== src/Lib.antt =====
-- LakeCat: the catalog store in memory, the records it keeps, and the rules of access over it.
--
-- The program is a catalog for Iceberg tables. Its store (crates/lakecat-store) keeps namespaces,
-- tables, commits, views, policy bindings, model publications, soft deletes, idempotency rows,
-- servers, projects, warehouses, storage profiles, grants of governed scans and an audit log with an
-- outbox. The service pages through its listings and drains its outbox; the security crate derives
-- from the ODRL policies of a table what a reader may see, and makes capabilities from authorization
-- receipts. This library models the store that keeps its rows in memory, the records, checks and keys
-- that it uses, the restrictions and capabilities, the proofs of governed scans, the paging and the
-- drain.
--
--   Prelude   what the source takes from Rust's standard library and from serde_json: text as lists
--             of code points, `BTreeMap` as an association list in the order of its keys, slices,
--             sorting and splitting, JSON values, decimal numbers; and the errors and results of
--             crates/lakecat-core/src/lib.rs.
--   Core      crates/lakecat-core/src/lib.rs. Core/Names: identities and the texts made of them
--             (`Namespace::path`, `Namespace::storage_key`, `TableIdent::stable_id`, and `table_key`
--             of crates/lakecat-store/src/helpers.rs). Core/Keys: which of these are injective.
--             Core/Parse: how namespaces and principals are read from strings.
--   Governed  crates/lakecat-core/src/governed_scan.rs and governed_scan/: the proofs and their
--             digests (`issue`, `validate_integrity`), their checks, and the stored grants of
--             crates/lakecat-store/src/governed_scan.rs.
--   Records   crates/lakecat-store/src/records.rs and the helpers of helpers.rs. Records/Types: the
--             structs. Records/Evidence: content hashes and the checks of hashes, keys and locations.
--             Records/Metadata: what is read from table metadata. Records/Tables, Records/Events,
--             Records/Policies, Records/Views, Records/Properties, Records/Receipts,
--             Records/Management (servers, projects, warehouses), Records/Locations and
--             Records/Profiles (storage profiles, their matching and their secrets): `validate` and its
--             kind, for each record. Records/External: what is called and not implemented there.
--   Memory    crates/lakecat-store/src/memory.rs, one function per operation of
--             `impl CatalogStore for MemoryCatalogStore`: Memory/Namespaces, Memory/Tables,
--             Memory/Commits (`commit_table`, `replay_table_commit`, `table_commit_records`),
--             Memory/Rename, Memory/SoftDeletes, Memory/Views (listings in Memory/Views/Listings),
--             Memory/Policies (policy bindings and model publications), Memory/Management,
--             Memory/Profiles, Memory/Grants and Memory/Outbox. Memory/Steps puts all operations that
--             write together to runs, and Memory/Invariant shows what every run keeps of tables,
--             views, bindings and publications; Memory/Management/Runs has the runs of the operations
--             on servers, projects, warehouses and profiles between any others.
--   Security  crates/lakecat-security/src/lib.rs. Security/Restriction: `ReadRestriction`, made of
--             the readers of Security/Jsonld, Security/Odrl and Security/Terms and the column lists of
--             Security/Columns. Security/Capabilities: the capabilities, made from the receipts of
--             Security/Receipts.
--   Service   crates/lakecat-service/src. Service/Namespaces: namespace.rs, the page tokens and
--             `namespace_page`. Service/Outbox: `drain_outbox_once` of outbox.rs, which works on the
--             store of Memory.
--   Tests     the theorems applied to a small catalog.
--
-- How code and model correspond:
--   * An operation takes the state and gives its result, with the new state if it holds the write
--     lock. Each holds the lock from its first read of the state to its last write, so runs are
--     sequences of operations. An error leaves the state as it is, except in `publish_model` and
--     `drop_view_if_version`, which may write before they fail: these give a state with an error too.
--   * The reading of the clock (`Utc::now`) is an argument, an instant is a natural number, and the
--     async runtime has no counterpart.
--   * A `u64` is a natural number that wraps at 2 ^ 64 where the source adds to it.
--   * Every loop is a recursion on a list. The only fuel is the number of requests that a client of a
--     paged listing makes (`follow_pages`); one more than the number of namespaces is enough.
--   * An error message is its format string with its arguments, which are not formatted into it.
--   * SHA-256 and its hexadecimal printing, the JSON writer, the URL parser, the printing of instants
--     and the encoders that serde derives are the fields of `External`, an instance argument of all
--     that uses them. What is documented of them is in `IsDocumented`; that digests are printed in
--     lower case is a hypothesis where it is used. The decoders that serde derives for restrictions
--     and actions are the fields of `Codecs`.
--   * A drain is proved for every graph and lineage sink: what is done with one event
--     (`project_outbox_event`) and the checks of the evidence are the fields of `Projector`. It locks
--     the store twice, to read the pending events and to mark them, so `drain_outbox_once` takes two
--     states: the one that it reads, and the one that other operations have left when it marks.
--
-- Not modelled: the constructors of records that only fill in defaults; the decoding of governed scan
-- proofs, their source scopes and the digests of plans; the store on Turso; the handlers, the scan
-- planning, the credentials and the table locations of the service, and `project_outbox_event`; the
-- governance engines; and the other crates (the command line, graph, lineage, Sail, QueryGraph).
pub mod Prelude
pub mod Core
pub mod Records
pub mod Governed
pub mod Memory
pub mod Security
pub mod Service
pub mod Tests
