-- ===== src/Lib.antt =====
-- joplin_mcp_rust: a model of the server crate of the repository, crates/joplin-mcpd, and what it
-- keeps to. The server indexes the notes of Joplin users in PostgreSQL and answers read-only MCP
-- tools over JSON-RPC, to bearers of tokens that it mints.
--
-- A request comes in through the origin policy and the transport. The transport checks its headers,
-- authenticates the bearer against the table of tokens, and dispatches a tool call. A tool validates its
-- input against the published schema, passes the gate on the state of the user's index, which may ask
-- the indexer to wake up, and gives its pages by signed cursors. The indexer decides per user on a
-- refresh or a rebuild and writes the state that the gate reads. A refresh reads what changed from
-- Joplin's table in batches, parses the items, and applies their rows to the derived tables, which the
-- tools read.
--
--   Json          serde_json::Value and its accessors
--   Contracts     crates/joplin-mcpd/src/contracts.rs
--   Tools         crates/joplin-mcpd/src/mcp/tools.rs: Error (ToolError, IndexStatus), Schema
--                 (tool_definitions), Validate (validate_tool_input and below), Truncate
--                 (truncate_text_at_chars), Cursor (encode_cursor, decode_cursor, the body cursors),
--                 Cursor.Values (the values of the list cursors), Gate (ready_index_metadata),
--                 Ilike (escape_ilike_pattern, against the meaning of ILIKE patterns)
--                 Listing (the pages of list_notes, get_recent_notes and get_notes_by_tag)
--   Indexer.State crates/joplin-mcpd/src/indexer/refresh.rs and rebuild.rs: each statement that writes
--                 joplin_mcp.index_state is a function of the table, and Steps has them as a relation
--   Indexer       crates/joplin-mcpd/src/indexer: Item (mod.rs and the metadata readers of refresh.rs),
--                 Parser (parser.rs), Content (item_content.rs), Source (source.rs), and of refresh.rs
--                 Tables (the derived tables, with Statements, Apply for the loops over the rows of a
--                 batch, and Reconcile for hard deletes), Rows (build_incremental_rows), Refresh
--                 (apply_incremental_refresh), Rebuild (rebuild.rs: the rows of a batch, Insert for the
--                 statements, Stream for the transaction) with Rebuild.User (incremental_refresh_user
--                 and full_rebuild_user, the transaction and its failure), Worker (refresh_users of
--                 worker.rs); Tables.Shelf is the abstract map that Tables implements
--   Keyset        paging by the last row of a page, which source.rs and tools.rs share
--   Auth.Tokens   crates/joplin-mcpd/src/auth/tokens.rs: the statements on joplin_mcp.mcp_tokens are
--                 functions of the tables, and Steps has them as a relation
--   Http          Headers and Origin for crates/joplin-mcpd/src/security.rs, RateLimit,
--                 TokenApi (token_check, token_revoke) and Html (html_escape) for
--                 crates/joplin-mcpd/src/http.rs
--   Transport     crates/joplin-mcpd/src/mcp/transport.rs; Admission says which requests get an answer
--   Checks        the theorems at concrete inputs
--
-- Functions keep their names. State is passed in and out, errors are values of Result, and a panic is
-- none or a response of its own. A text is a native string where the code only compares it, and the
-- list of its code points where the code reads its characters; an offset counts UTF-8 bytes. A time is
-- an integer of nanoseconds, and a configured interval is taken below the range of i64 nanoseconds.
-- Integers of the wire are bounded where the code reads them (as_i64, as_u64); a gap of seconds keeps
-- the bound of u64. A page reader runs on fuel, the length of the text and one, and that much is enough;
-- the digits of a port run on fuel 5, since a port is below 65536, those of a 64-bit number on fuel 20.
-- The loops over batches and pages run on fuel, the number of rows and one. All else is structural recursion.
--
-- Third-party code is a parameter: serde_json's texts, base64, HMAC-SHA256 and SHA-256 (Codec and
-- Crypto), the matches of the parser's regular expressions (Engine), Url::parse, Unicode's lower case,
-- and whether tokio's timeout fires. What a theorem needs of them is a hypothesis.
-- The queries of source.rs go by any collation that is a strict order of texts; those of tools.rs are
-- taken to order ids by their bytes. PostgreSQL is taken to lower the case of a text character by
-- character. A transaction is the tables at its start and as its statements left them; rollback takes the
-- first and commit the second. Failures of the database, logs and metrics are left out, but for an insert
-- of a key that is there.
--
-- Not modelled: the search and the single-note tools, the key of the lock of a refresh (whether it was
-- acquired is an argument), the worker's timer and panics of its tasks, the bootstrap login,
-- the configuration, the lifecycle and the client crate.
mod Prelude
pub mod Keyset
pub mod Json
pub mod Contracts
pub mod Time
pub mod Tools
pub mod Auth
pub mod Http
pub mod Transport
mod Checks
pub mod Indexer
