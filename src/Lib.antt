-- ===== src/Lib.antt =====
-- Perseus: a service that stores the graph of Go module dependencies in Postgres and answers
-- queries on it, and the command line client of the service.
--
-- The parts and how they interact. The client (package main) sends RPCs to the server, tries them
-- again while the server is unavailable, walks the graph one level after the other, and prints
-- trees, lists and paths. The handlers of the server (internal/server) check a request and call the
-- interface Store. The Postgres client (internal/store) implements that interface with SQL on
-- three tables: modules, versions and dependencies between versions. The command `server` reads its
-- settings, connects to the database, and serves until a signal comes; `update` takes what it sends
-- from a local repository or from a module proxy.
--
-- What models what.
--   Prelude            the names that the modules share: tests on numbers, lists, texts as lists of
--                      code points, results, sorting, and Go's int (Prelude/Int).
--   Store/Session      the tables of internal/store/create_database.sql, a connection whose round
--                      trips may fail, serial ids, and the transaction around a body.
--   Store/Postgres     what the database does with the type semver and with collation: a
--                      parameter, with the laws of equality that the proofs use.
--   Store/Write        SaveModule, SaveModuleDependencies, writeModule and writeModuleVersions of
--                      internal/store/pg.go. Its children prove what each statement does, that the
--                      database stays valid, and that the whole adds edges to a graph.
--   Store/Valid        the invariant: ids are unique and below the sequences, names and versions are
--                      unique, and foreign keys have their rows.
--   Store/Graph        the graph: nodes are pairs of a module name and a version, edges are rows.
--   Store/Ends         what holds where an action ends, for success and for failure.
--   Store/Like, Glob   the LIKE operator of SQL; globToLike and applyNameFilter.
--   Store/Paging       internal/store/paging.go: FNV-1a, encodePageToken and decodePageToken; JSON
--                      and base64 are a parameter with the law that decoding undoes encoding.
--   Store/Query        QueryModules, QueryModuleVersions, getDependx, GetDependents and
--                      GetDependees of internal/store/pg.go, with the structs of store.go. Versions
--                      says which rows are selected, Latest and Newest what GROUP BY makes of them.
--   Store/Open         NewPostgresClient of internal/store/pg.go, with internal/store/options.go.
--   Server/Messages    the messages of perseusapi as records, and the errors of the handlers.
--   Server/Backend     the interface Store of internal/store/store.go, the Postgres client as one,
--                      and the shape of a handler.
--   Server/Modules     CreateModule, ListModules and ListModuleVersions of
--                      internal/server/connect.go; Listing is ListModules on the Postgres client.
--   Server/Dependencies  UpdateDependencies and QueryDependencies of internal/server/connect.go;
--                      module.Check of golang.org/x/mod is a parameter with its documented laws.
--   Server/Config      internal/server/server_config.go, and the flags and settings that
--                      internal/server/server.go puts together; Settings says which source wins.
--   Server/Connection  the connection string of internal/server/server.go, with url.PathEscape of
--                      Go.
--   Server/Health      handleHealthz of internal/server/http.go.
--   Server/Rpc         perseusapi/perseusapiconnect/perseus.connect.go: the paths of the procedures and
--                      which handler serves which, and the mux of internal/server/server.go.
--   Server/Start       runServer of internal/server/server.go: what it opens and closes, and its two
--                      goroutines as a machine that events drive.
--   Client/Retry       retryOp of retry.go.
--   Client/Args        parseModuleArg of findpath.go, xor of query.go.
--   Client/Config      client_config.go and parseSharedQueryOpts of query.go.
--   Client/Rpc         the URLs that the client of perseus.connect.go requests, on the address of
--                      getClient in client_config.go.
--   Client/Main        main.go: how the program ends, and the command `version`.
--   Client/Trees, Walk walkDependencies of query.go; Walk/Served runs it over the handlers of
--                      Server/Dependencies and the Postgres client.
--   Client/Flatten     flattenTree and processChildren of query.go; Flatten/Listed says
--                      what they list.
--   Client/Dot         generateDotGraph of query.go: the edges that it finds, and the text of the file.
--   Client/Lists       listModules, listModuleVersions and lookupLatestModuleVersion of query.go.
--   Client/Output, Commands  the commands `query list-modules`, `list-module-versions`, `ancestors`
--                      and `descendants` of query.go, from their arguments to what they print;
--                      Listed, Versions, Graph and Latest run them over the handlers and the Postgres
--                      client.
--   Client/Paths       pathfinder.go: the search as a list of results; Paths/Goroutines is the same
--                      with its goroutines, semaphore and channel.
--   Client/FindPaths   the command find-paths of findpath.go, from its arguments to the text that it
--                      prints, over what the channel of the search delivers; Served runs it over the
--                      search, the handler and the Postgres client.
--   Client/Update      update.go; git and the file system are parameters. Update/Served runs it over
--                      the handler on the Postgres client, Update/Proxies over Modproxy.
--   Git                internal/git/repo.go: VersionTags with its two goroutines; go-git and semver
--                      are parameters.
--   Log                internal/log/logger.go and log.go: what the logger hands to the handler.
--   Modproxy           internal/modproxy/proxy.go; the HTTP client, semver and modfile of
--                      golang.org/x/mod are parameters.
--
-- State. A call of the store is a function from a session to a result and a session. A session
-- holds the tables, the two sequences, and a list that says for each round trip to come whether it
-- fails. A statement is one round trip; a transaction restores the tables, but not the sequences,
-- where its body or its commit fails. Concurrent sessions are not modelled: each call runs alone.
--
-- Goroutines. Git, Client/Paths/Goroutines and Server/Start have a state, a function that makes one
-- move, and a schedule: the list of the goroutines or events that move. A move is one access to a
-- shared variable, one use of a channel or of a semaphore, or one return of a call. A theorem about
-- every schedule is about every order of these moves. The Go memory model promises less for the
-- race in VersionTags; the order of single accesses is the least that can go wrong.
--
-- Bounds and fuel. A serial column ends at 2^31 - 1, after which an insert fails; offsets are
-- 64-bit integers that wrap around. The loop of generateDotGraph has one unit of fuel for each
-- node. The client's loops over pages and a caller that follows page tokens have fuel; the
-- theorems say how much is enough. A machine needs no fuel, as it runs for as long
-- as its schedule; a measure of the state bounds the moves.
--
-- What is assumed. A parameter that stands for code outside the repository comes with its
-- documented laws where a theorem needs them: decoding undoes encoding, an order is one (that of
-- semantic versions is a strict weak order), Serve of net/http closes its listener and
-- returns ErrServerClosed once Shutdown was called, Vanguard hands on the requests for the
-- procedures of the service, and strconv.ParseBool gives false where it fails.
--
-- Not modelled: the sockets, the web pages, the tree of cobra commands, the spinner and the texts
-- of errors; the layout of tables and of JSON; the time between two attempts and the length of
-- timeouts; what the goroutines of a canceled path search still send; getModuleVersionID of
-- internal/store/pg.go, which nothing calls; and generated code beyond the fields of its messages
-- and the paths of its procedures.
pub mod Prelude
pub mod Store
pub mod Server
pub mod Client
pub mod Git
pub mod Log
pub mod Modproxy
