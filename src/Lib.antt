-- ===== src/Lib.antt =====
-- A model of scopuli, a self-hosted secrets server, and what was proved of it.
--
-- The program: a REST API (internal/api) takes a request, asks internal/auth who sent it, tests the
-- path against the scopes of the key (internal/scope), seals or opens values (internal/crypto) and
-- keeps them in SQLite tables (internal/store). Tags and metadata are normalized by
-- internal/metadata, tokens are made by internal/token, and each operation appends a row to a hash
-- chain (internal/audit).
--
-- Files:
--   Prelude   tests, lists, texts as code points, UTF-8, and methods that may fail (`Exec`)
--   Env       what the program calls and does not implement, as a record that is a parameter
--   Strings   the functions of Go's package strings that are used
--   Scope     internal/scope/scope.go; Scope/Glob is path.Match of Go, read into items first
--   Metadata  internal/metadata/metadata.go
--   Store     internal/store: Database has the tables, statements and transactions; Secrets, Keys
--             and Operators the methods of the files of the same names; Like is SQLite's LIKE. Opening is init in
--             store.go with its migration, Startup the salt file and OpenWithMasterPassword: a
--             `Disk` is the world with what the next start finds in the two files
--   Crypto    internal/crypto/aead.go and kdf.go
--   Token     internal/token/token.go
--   Auth      internal/auth/auth.go
--   Audit     internal/audit/audit.go
--   Backup    internal/backup/backup.go; a `Streams` is what is still to be read, what has been
--             written, and the world
--   Api       internal/api/server.go, one file for each group of handlers; the other modules below
--             it are about them
--   Ui        the web console, internal/api/ui*.go: Session is the signed cookie with login and the
--             middleware, AuditPages, SecretPages and KeyPages are ui_pages.go, SecretActions and
--             KeyActions are ui_actions.go, Routes is the part of Routes in server.go below /ui. A
--             page is the name of a template with the data it is given
--   Serve     runServe and bootstrapFirstBoot in cmd/scopuli/serve.go, up to the server that is
--             handed to net/http
--   Examples  a concrete `Env`, and runs
--
-- State: a `World` is the database, a list of rows for each table, and the number of the next event
-- outside the program. Every statement, clock reading and draw of random bytes takes one number, so
-- a statement may fail at any point, and what was written before stays, unless a transaction rolls
-- it back. A handler is `Exec World Response Response`: it raises the response of an early return.
-- One request runs after another; two requests do not interleave.
--
-- Texts are lists of code points, for strings that are valid UTF-8. Versions keep the wrap-around of
-- an int64, as its bit pattern. Times are native numbers, expiry times are signed.
--
-- Fuel: the glob reader takes the length of the pattern, since each item takes a character; the
-- loop of base62 takes twelve rounds, since a uint64 has at most eleven digits in base 62; the loop
-- that writes a decimal numeral takes twenty, since a uint64 has at most twenty digits.
--
-- Parameters, in Env: the clock, the failures of the engine and of files, the random source, SHA-256,
-- HMAC, AES-GCM, ChaCha20-Poly1305, Argon2id, encoding/json, time.ParseDuration, base64, whether
-- html/template parses the templates, and the ranking of FTS5. Theorems that rely on one of them say
-- so: `IsGcm`, `IsChacha`, `IsArgon`, `IsBase64`, `IsJson`, `FillsRandom` and `IsSha` are the documented laws.
--
-- Not modelled: how chi matches a URL, JSON decoding of requests, how templates become HTML, static
-- files, the MCP server, the client, the other commands, configuration, the key ring, and the pragmas
-- and the text of the schema.
pub mod Prelude
pub mod Env
pub mod Strings
pub mod Scope
pub mod Metadata
pub mod Store
pub mod Crypto
pub mod Token
pub mod Auth
pub mod Audit
pub mod Backup
pub mod Api
pub mod Ui
pub mod Serve
pub mod Examples
