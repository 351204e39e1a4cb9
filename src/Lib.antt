-- ===== src/Lib.antt =====
-- A verification library for the trading backend of fxtrader, the Go services under backend/.
--
-- The program: HTTP and message handlers call services (backend/internal/service), the services
-- read and write documents through repositories (backend/internal/repository), send requests to
-- MetaTrader bridges through a socket server (backend/internal/socket) and wait for the answers on
-- channels, and give updates to a websocket hub (backend/internal/ws).
--
-- The files:
--   Base, Base/*: names of the libraries, Boolean tests, lists and maps, integers, results.
--   Outside: what the repository does not implement, as a record of operations: float64, object
--     ids, the clock, the collections of the database, whether a call fails. Outside/Laws: what is
--     documented of them, as hypotheses of the theorems that need it.
--   Model, Model/Trade: the documents and messages of backend/internal/models and
--     backend/interfaces. Model/Retcodes: backend/internal/constants/trade_retcode.go.
--   World: the state that the services share and the monad of actions on it; World/Outcome: the
--     case rule for sequences.
--   Repo/*: backend/internal/repository. Users and Accounts are user_repository.go, Trades is
--     trade_repository.go, Transactions is transaction_repository.go, Symbols has symbols and
--     rules with their services, Pages the lists and pages that the handlers show, Others the rest
--     and service/log_service.go.
--   Service/Transfer: TransferBalance of service/user_service.go. Service/Users: its users and
--     accounts. Service/Transactions: transaction_service.go. Service/Leaders: leader_request.go.
--     Service/Alerts: alert_service.go. Service/Copy: copy_trade_service.go. Service/Telegram:
--     telegram_service.go.
--   Service/Trade/*: trade_service.go. Place is PlaceTrade, Close has CloseTrade, ModifyTrade,
--     RequestBalance and RegisterWallet, Respond has the handlers of the bridge's messages, Stream
--     the streams, Request the requests by message, Channels the sending loop and the channels.
--   Hub: backend/internal/ws/hub.go and Client of models/client.go. Hub/Handler: ws/handler.go.
--   Socket/*: backend/internal/socket/socket_server.go. Clients is the pool of connections, Handlers
--     the handlers of the messages, Connection the dispatch and the two loops. Its state holds the
--     World and the mutexes; a method that asks for a mutex which is held is blocked.
--   Api/*: the HTTP handlers of backend/internal/api and, in Auth, backend/internal/middleware. A
--     handler is an action that ends in a value, an early reply or a panic. Users and Accounts are
--     user_handlers.go, Trades is trade_handlers.go, Reviews has transactions and leaders, Overview
--     the overview and the referrals, Catalog the rest. Routes and Routes/* are routes.go: the
--     routes as data, in three groups by the authentication before them, and what serves them.
--   Config: backend/internal/config. Startup: the steps of backend/cmd/server/main.go before
--     anything is served, and the goroutine that a placed order starts.
--   Tests/*: an instance of Outside and runs on concrete data.
--
-- How the code is read. A method is an action on the World that ends in a value, an error or a
-- panic; the model's names are the methods' in snake case. A method that waits in a select takes
-- `others`, what the other goroutines do to the World until it goes on; the timer fires if the
-- channel is still empty then. A channel has a number, and a method waits on the one that it made,
-- whatever is registered under the trade's id meanwhile. A call to the database or on a connection that fails has no effect.
-- The collections are abstract: a filter is a test and an update a function, and what a lookup
-- finds after an update is a hypothesis. The arithmetic of float64 is abstract, so no law of it is
-- used. Times and object ids are numbers, the zero id is 0. Loops are structural recursion, on
-- what a connection delivers for the loops that wait, so there is no fuel.
--
-- Not modelled: the routes that hand out files and the documentation, the log of requests and the
-- connection of service/mt5_conn.go, which nothing uses; the ticker of the alerts and the listening
-- of the start; the metadata of log entries, which no code reads. Tokens, hashes, the environment,
-- the sending of a Telegram message and the binding of a request are parameters. The mutexes are
-- modelled for the server of the bridges alone; elsewhere a step on a map is one step, since no
-- lock is held across a call. The two pumps of a client of the hub write on one connection
-- without a mutex; that the websocket library may panic on that is not modelled.
pub mod Base
pub mod Outside
pub mod Model
pub mod World
pub mod Repo
pub mod Service
pub mod Api
pub mod Socket
pub mod Hub
pub mod Config
pub mod Startup
pub mod Tests
