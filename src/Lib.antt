-- ===== src/Lib.antt =====
-- avito-kitchen: a platform that takes food orders and a venue that cooks them, two services with a
-- PostgreSQL database each, that call each other over HTTP with at-least-once delivery.
--
-- The platform (internal/platform) saves a checkout together with a job in its table `outbox`; its
-- worker claims the job under a lease, asks the venue for a decision, and finishes the job. The venue
-- (internal/venue) decides an order once, moves it through its statuses, and adds an event to its
-- table `venue_outbox` at each step; its worker delivers these to the platform, which records them.
--
-- A database is a record of its tables, a table the list of its rows (Base.Tables), a statement a
-- function on it. An operation is a function from its environment and the database to a result
-- (Shared.Transaction: internal/shared/postgres/postgres.go); each `return err` of the code is an
-- `err`, and a transaction rolls back on one. Go's int and int64 values are native numbers: the
-- services let no negative one through, and the code's own overflow tests are written out. Loops are
-- recursion on the list that they range over, so no fuel is needed.
--
--   Platform.Store, .Domain      internal/platform/domain/model.go, repository/repository.go
--   Platform.Run, Venue.Run      the statements, identifiers and transactions of an operation
--   Platform.Checkout, .Create   CreateOrder of internal/platform/repository/orders.go
--   Platform.Orders              GetOrder and CancelOrder of the same file
--   Platform.Outbox, .Finish     internal/platform/repository/outbox.go
--   Platform.Events              internal/platform/repository/events.go
--   Platform.Partner             internal/platform/repository/partner.go
--   Platform.Catalog             internal/platform/repository/catalog.go
--   Platform.Client              internal/platform/integration/venueclient/client.go
--   Platform.Worker              internal/platform/service/outbox.go
--   Platform.Service             internal/platform/service/service.go and orders.go: .Checkout,
--                                .Partners and .Venues are the services of orders, partners and venues
--   Platform.Tokens              internal/platform/security/ordertoken/token.go, and cursors
--   Platform.Http                internal/platform/transport/http: .Requests, .Orders and .Responses
--                                are dto.go, .Handlers, .Partners and .Limiter handler.go
--   Shared.Strings, .Base64      what the services use of Go's strings, unicode/utf8 and base64
--   Shared.Integers, .Http       integers before they are checked, internal/shared/httpx/httpx.go
--   Shared.Errors, .Uuid         internal/shared/apperror/error.go, internal/shared/uuid/uuid.go
--   Shared.Environment           what the two config.go share
--   Platform.Config, Venue.Config
--                                internal/platform/config/config.go, internal/venue/config/config.go
--   Platform.Consistency         orders and jobs agree: the invariant, and a child for each operation
--   Platform.System              the operations of the platform in any order: its worlds and steps
--   Platform.System.Machine      the statuses of an order as an abstract machine, by who moves them
--   Platform.System.Jobs, .Kept, .Moves
--                                what each operation does to jobs and orders
--   Platform.System.Invariant, .Safety, .Rounds, .Leased, .Progress
--                                what holds of every reachable world, and the worker's rounds in it
--   Venue.Store                  internal/venue/domain/model.go, repository/repository.go
--   Venue.Decide, .Apply         DecideOrder of internal/venue/repository/orders.go
--   Venue.Lifecycle              ListOrders, GetOrder and the transitions of the same file
--   Venue.Cancel                 CancelOrder of the same file
--   Venue.Callbacks              internal/venue/repository/callbacks.go
--   Venue.Menu                   internal/venue/repository/menu.go
--   Venue.Worker                 processOne and callbackBackoff of internal/venue/service/callbacks.go
--   Venue.Service, .Orders       internal/venue/service/service.go
--   Venue.Http, .Handlers        internal/venue/transport/http/dto.go and handler.go
--   Venue.Client                 internal/venue/integration/platformclient/client.go and
--                                internal/venue/service/menu.go
--   Link.Menu, .Decision         what one service sends, as the other reads it
--   Venue.Numbering              the numbers of events, over decisions and cancellations
--   Venue.Cancel.Effects         what an answered cancellation leaves behind
--   Venue.System, .Kept, .Steps, .Repeat
--                                the operations of the venue in any order, what stays of an order,
--                                and repeated commands
--   Platform.Tests, Venue.Tests, Shared.Tests, Link.Tests
--                                the theorems at concrete inputs
--
-- Parameters, in the record Env of each service: the clock, the identifiers that an operation
-- generates, which statements fail, and how the server reads a text as a `uuid`. Row locks and
-- advisory locks make the transactions on one order run one after another, so an operation is one
-- step; the claims and the finishing statements are steps of their own, and what happens between
-- them is a parameter of the worker's round.
--
-- A request is modelled once it is decoded: a JSON object is the record of its fields, integers of
-- requests are signed until the checks have refused the negative ones. The digests of the standard
-- library and the JSON texts that are hashed are parameters (Platform.Service.Checkout.Coding), and
-- the clocks of the host and of the server are one.
--
-- Not modelled: routing, the JSON decoder, the digests, the readers of durations and numbers, wiring,
-- logs and metrics, panics, and the goroutines and timers around the workers. A claim takes the first
-- of its candidates: that the query skips a row which another transaction holds locked at that moment
-- is not modelled either.
pub mod Base
pub mod Shared
pub mod Platform
pub mod Venue
pub mod Link
