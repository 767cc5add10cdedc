-- ===== src/Lib.antt =====
-- codex-memoryd: a local memory provider for coding agents. It stores records of what a user or a
-- repository prefers and decided, screens what may be stored, recalls what is safe and current
-- within a token budget, and consolidates evidence into claims.
--
-- The parts, and the files that model them:
--   Domain      src/domain.rs: the enums with their wire forms (as_str, parse), MemoryRecord.
--   Errors      src/error.rs: ErrorCode, its wire form and HTTP status, Error, Result.
--   Ids         src/ids.rs: public_handle and parse_public_handle. Hashes: content_hash,
--               exact_content_hash and source_hash.
--   Policy      src/policy.rs. Secrets: the patterns, detect_secret, detect_injection,
--               redact_secret_like. Screen: screen_content and truncate_chars. Boundary:
--               export_boundary. Classify: classify and extract_related_files.
--   Consolidation  src/consolidation/. Types: the contract and its validate methods. Evaluate:
--               evaluate_candidate, each early `return defer(..)` a step of a do block.
--               Evidence and Adoption: what its checks come to.
--               Fingerprint: rejection_fingerprint.
--   Recall      src/recall.rs. Admission: recall_deny_reason, type_allowed and the filter of
--               recall. Terms, Boost, ModeSignals and Score: score_record and ranking_signals, with
--               pack_mode_boost and pack_mode_signals by mode. Rank: the sort. Facts:
--               recall_provenance, the facts and citations. Pack: the packing loop and what is
--               settled after it. Withheld: build_withheld. Respond: recall itself, from the
--               candidates to the response. Search: search, over Store.Search.
--   Store       src/store.rs. Procedures: the table of procedures as the list of its rows, with
--               retire, supersede, counter-evidence and validate as changes of the rows.
--               Records: quarantine_records on the table of memory records. Mutations: promote,
--               archive, delete, touch, supersede and invalidate by id, with the mutation counter;
--               Commands has them as commands, and what each means for a map from ids to rows.
--               Relations: relation_expanded_subjects, breadth first. Search: search_records, its filters
--               and its queries.
--   Bundle      src/portable_bundle.rs. Base64: decode_base64. Paths: validate_member_name,
--               valid_repo_path, scalars and screened texts. Reference: PortableRef::validate,
--               ref_key and the checks of references. Json: validate_json_limits and
--               sanitize_metadata_value. Manifest: validate_manifest. Objects: the bodies and their
--               checks. Canonical: canonical_json, with canonical_number in Numbers. Payload: the lines of
--               the members with their identities; Check:
--               validate_payload_objects.
--   Ingest      src/ingest.rs. Kinds: ArtifactKind. Chunks: derive_chunks with chunk_markdown,
--               split_section and split_fixed.
--   Retrieval   src/hybrid_retrieval.rs. Fusion: reciprocal_rank_fusion.
--   Semantic    src/semantic_import.rs: the preview; Report: its requests and reports; Apply: the import,
--               entry by entry, over the tables of Store.Semantics (subject aliases and relations,
--               with their unique indexes).
--   Activation  src/activation.rs: evaluate_with.
--   Prelude     shared lists, texts, sets and tests; Examples: runs on concrete inputs.
--
-- evaluate_candidate screens a claim with Policy.Screen, as a bundle screens its texts; recall admits,
-- ranks and packs what the store answers with, and answers with the types of src/protocol.rs; a
-- bundle names its objects by the handles of Ids.
--
-- Parameters, for code that is not in this repository: the regex crate (Policy.Regex.RegexEngine),
-- Rust's Unicode tables (Unicode, to_lowercase), the hexadecimal SHA-256 digest (hex_digest,
-- sha256_hex), the time crate and the clock (days_since, Time, utc_offset), IEEE 754 arithmetic
-- (Float, in_unit), what serde_json reads and writes (encoded_len, Reader), and the rows that
-- SQLite answers with (Sqlite, Store). Nothing is assumed of them but what a theorem names.
--
-- Held differently than in the source: an f64 is its bit pattern; the confidence of a
-- classification is a number of hundredths; the JSON metadata of a row is the reads that the
-- program makes of it, and that of a bundle a Value whose numbers are their texts; a cursor is the
-- number that it prints; a text is a sequence of Unicode scalar values; usize does not wrap where
-- the source does not test it, since such a sum is over at most 200 candidates of bounded texts, or
-- counts objects that are held in memory; where it does (checked_add), the test is written out.
--
-- Loops are structural recursion on the list that the source iterates over. Fuel is given to
-- Recall.Search.Laws.follow, a client of search, for which one more than the number of matching rows is enough,
-- and to Store.Relations.traverse, whose queue is worked off in as many turns as there are seeds, 64
-- and relations of one subject.
--
-- Not modelled: of src/store.rs, SQL errors but those of the searches, the tables but those of
-- memory records, procedures, relations and subject aliases, the operations not named here and the
-- columns that only the scheduler reads but the mutation sequence; of src/portable_bundle.rs, the
-- archive, the visitor that refuses a key twice (a part of Reader.parse_value), the export, the
-- plan and its application; of src/ingest.rs, the sync run; of src/hybrid_retrieval.rs, the
-- embeddings; the handlers of src/service.rs, dreaming, the imports from git, chats and other
-- programs, servers, the command line and the evaluation harnesses, which are mostly input and
-- output around these parts.
pub mod Bundle
pub mod Ingest
pub mod Activation
pub mod Semantic
pub mod Retrieval
pub mod Prelude
pub mod Domain
pub mod Errors
pub mod Policy
pub mod Consolidation
pub mod Recall
pub mod Ids
pub mod Examples
pub mod Store
