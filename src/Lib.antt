-- ===== src/Lib.antt =====
-- neo4j-mcp-canary: a verification library of the MCP server: the way of an HTTP request to its tools,
-- the registration and the configuration of tools, the graph tools, and the streaming of results.
--
-- The server offers tools that run structured queries on a Neo4j database. A tool decodes its
-- arguments into an input record, a build function (internal/tools/graph, internal/tools/traversal,
-- internal/tools/patterns) checks them and produces a `Query`: the text of a Cypher statement, its
-- parameters, whether it writes, and an error hint. A handler sends it through the database service
-- (internal/database), which streams the records back under a cap on rows and a cap on bytes. A custom
-- tool (internal/tools/custom) runs a statement of the configuration, whose definition is validated when
-- the configuration is read (internal/config).
--
-- A request reaches the tools through a chain of middleware (internal/server/middleware.go), which
-- authenticates it and stores its credentials and its selection of tools in its context
-- (internal/auth). The server (internal/server/server.go) registers its tools when it starts
-- (internal/server/tools_register.go), and again after the first handshake that verifies the database
-- (internal/readiness); a filter on tools/list and tools/call (internal/mcpsdk/hooks.go) narrows what a
-- request sees to its selection.
--
-- Parts and files:
--   Prelude          tests, lists and integers that every part uses
--   Text             Go strings as lists of code points, with strings, unicode and strconv functions;
--                    Search has strings.Cut, CutPrefix, EqualFold and Contains
--   Graphutil        internal/tools/graphutil: Value (property values and maps), Error and Query (the
--                    results of build functions), Builder (builder.go, the parameters; `Build` is the
--                    state and error monad of code that holds a *Builder), Quote (builder.go, quoting
--                    of names), Filters, NodeRef, Limits, Projection (the files of those names)
--   Graphutil/Quote/ReadBack      a reader of quoted identifiers, the description of quoting
--   Graphutil/Erase, Sequential, Success   the techniques that the proofs on build functions share
--   Traversal        internal/tools/traversal: buildTraverse is `build_traverse`, and so on
--   Graph            internal/tools/graph: Common (common.go), RelRef (rel_ref.go), Reads
--                    (node_count.go, node_find.go, node_get.go, rel_find.go), Nodes (node_create.go,
--                    node_delete.go, node_update.go), Relationships (rel_create.go, rel_delete.go,
--                    rel_update.go); Selection, Narrowing, Wording and Guards, a description of what
--                    surrounds a mutation, with the texts written out
--   Patterns         internal/tools/patterns: one file for each tool; Connected is `checkConnected`
--                    of match_pattern.go
--   Tools            the nineteen graph tools as one type
--   Database         internal/database/service.go: Streaming is the loop of `executeStreaming`, Keyword
--                    is `StripLeadingWhitespaceAndComments` and `FirstKeyword`, Classify is
--                    `GetQueryType`, Version is internal/database/version.go
--   Database/Keyword/Stripped     a description of the leading whitespace and comments of a query, and
--                    Word of the word behind them; Leading, Cases, Rounds, Exact, proofs
--   Cypher           internal/tools/cypher: ReadCypher is `handleReadCypher` of read_cypher_handler.go,
--                    WriteCypher is `handleWriteCypher` of write_cypher_handler.go, each as a function
--                    from the service to the calls it makes and its reply; SchemaDdl is schema_ddl.go and
--                    the statement of `handleCreateConstraint`, SchemaDrop is
--                    drop_constraint_handler.go and drop_index_handler.go
--   Auth             internal/auth/auth.go: the values of a request's context
--   Config           internal/config: Instances (instances.go), CustomTools (custom_tools.go), Scan
--                    (`cypherCode` of custom_tools.go)
--   Tools/Custom     internal/tools/custom/custom.go: `BuildParams` and `Handler`
--   Readiness        internal/readiness/readiness.go and `IsAuraHost` of internal/queryapi/detect.go
--   Server/Http      what the middleware uses of net/http: headers, bodies, requests, answers
--   Server/Middleware             internal/server/middleware.go: `authMiddleware`; Chain, the other
--                    middlewares and `chainMiddleware`; Instance, the routes of instances; Access and
--                    Served, a description of who is let through, with Exact and Instance/* as proofs
--   Server/Tools     internal/server/tools_register.go and internal/tools/category.go: the filters;
--                    Builtin, the built-in definitions; Check, `CheckToolConfig`; Enabled, Names,
--                    Distinct, proofs
--   Server/Requests  internal/server/server.go and internal/mcpsdk: the server's state, the verification
--                    on the first request and the filter on requests; Verified and Visible, proofs
--   Examples         the theorems at concrete inputs
--
-- Conventions. A method on a pointer receiver passes its state on; a function that returns an error
-- returns a `Result`, with one constructor of `Error` for each message (the numbers and names that the
-- message quotes are the constructor's arguments). A Go map with string keys is an association list in
-- insertion order; where the code ranges over a map without sorting, only the name in an error message
-- depends on the order. Go's int is `ℤ` over the native numbers.
--
-- Bounds and fuel. `find` of Patterns/Connected runs on fuel: a forest made by k unions has depth at
-- most k, and the fuel is two more than the number of relationships; the theorems hold for the code's
-- own call, so the fuel is part of what they prove. The digits of a number are printed on fuel one above the
-- number. `strip_rounds` runs on fuel one above the length of
-- the query, and a round that goes on shortens the query. Its search for the "*/" of a block comment
-- starts at the comment's own star, so for "/*/" it differs from Cypher's comments, and what speaks of
-- these is about queries without that text. `code_loop` of Config/Scan has a round for
-- each character, and each round moves on by at least one. Every other loop is structural.
--
-- Parameters. The decoders of base64 and of the JSON method of a request, the reading of numbers that
-- are no integers, the answers of the database service, the verifier of bearer tokens and the handler
-- behind a chain are parameters. A handler is a function from the headers set so far and the request to
-- an answer, so `reach`, which keeps the request that it is given, shows what a chain hands on.
--
-- Not modelled: the decoding of JSON arguments, the other handlers, the driver and its sessions (a result
-- stream is a parameter: its records, the error that it ends with and its summary), the search, GDS and
-- feedback tools, the reading of configuration files and of the environment, the listeners, TLS, the
-- routes of the mux and the metadata document of the HTTP server, the stdio mode, the locks round the
-- first verification (a handshake is one step), timeouts except as the errors they give rise to,
-- the constant time of key comparisons, analytics and logging.
pub mod Prelude
pub mod Text
pub mod Graphutil
pub mod Traversal
pub mod Graph
pub mod Patterns
pub mod Database
pub mod Cypher
pub mod Tools
pub mod Auth
pub mod Config
pub mod Server
pub mod Readiness
pub mod Examples
