-- ===== src/Lib.antt =====
-- A verification library for the backend of the logistics center, which manages the orders, routes
-- and courier payments of many companies in one database. A request passes the guards, a service
-- then runs in the context of the company, and every call of the database goes through the helper
-- that is to confine it to that company. The services call each other only through the database, the
-- state machines and events.
--
-- The parts, all below backend/src:
-- - Access: modules/auth (guards, permissions) and modules/platform/guards. A call is a record of
--   what the guards read of it; Guards has the global guards of app.module.ts in their order, from
--   common/guards/app-throttler.guard.ts on, Permissions the matrix of roles, Paths the
--   normalisation of request paths. The throttler, passport's answer and the decorators' metadata
--   are parameters.
-- - Tenancy: prisma. Isolation is tenant-prisma.helper.ts, which rewrites the arguments of a
--   database call; they are JavaScript values (Values, with toInputJsonValue in Values/Json, and
--   Values/JsonLaws about reading what it makes). Actions lists the actions of Prisma and the
--   models of companies apart from the lists of the helper; Confinement and Scoping are about the
--   arguments that come out. Context is tenant-context.service.ts with the calls of
--   prisma.service.ts, and Services is about the calls of a service in its company.
-- - Orders: modules/orders. StateMachine is order-state-machine.ts; Columns and Service are
--   orders.service.ts, with the rows of a table, the history, the audit log and the events as the
--   state. Replay and Tracking are about the history, Unique, Creation and Editing about external
--   identifiers and numbers, Transition about a single status change, Steps and Reachable about any
--   sequence of calls.
-- - Routing: modules/routing. StateMachine is route-state-machine.ts; Provider has the interface of
--   a routing provider and the options; Plan is resolveRoutePlan, and Points is
--   buildRoutePointCreateData, of routing.service.ts. Resolved, Planning and Sequence are about
--   their results, and Planned about a plan over the stored rows. Assignment is
--   syncRouteOrdersWithCourier, which writes the tables of Orders; AssignedOrder and Assigned are
--   about the histories after it. Stored is the data that a route keeps of the provider's answer,
--   with StoredLaws about reading it back. Rows has the tables, Service and Update the operations.
--   Exclusive, Replacing, Building, Updating, Maintaining, Safety and Reachable are about the
--   points of active routes under all operations, as steps of a relation; Updated and Updates about
--   what updateRoute returns.
-- - Compensation: modules/compensation. Effective, RuleConfig and StateMachine are the versions,
--   the configurations and the statuses; Metrics, Periods, Components and Breakdown are the
--   calculation of payments.service.ts, and Transitions and Payments its stored rows. PaymentRules
--   is payment-rules.service.ts; RuleHistory has the histories that its rows stand for, which
--   Versioning and Listing are about. Latest and ActiveRules are about the latest versions, Totals
--   and Guarantee about sums, Refused about a rule that every calculation refuses, History and
--   Ledger about what is stored.
-- - Webhooks: modules/integrations/webhook-delivery.processor.ts. Delivery is the processor on one
--   event with its queued jobs, Attempts is about one job, and Retries about all of them.
-- - Integrations: modules/integrations/integrations.service.ts. Settings is the registrations of
--   webhooks, with SettingsLaws about their settings. Rows, Import and Processing are importOrder,
--   which is no transaction: its state is returned also where it throws. The event keeps the
--   response as JSON, whose dates are text; Responses is about how a response is sent. Events,
--   Idempotence and Repeating are about a request that comes again, Linked, Consistency and
--   Preserving about the orders and the map of external identifiers. The payload of an event is
--   left out.
-- - Platform: modules/platform/platform.service.ts and modules/tenant-provisioning. Companies and
--   Rows have the rows, Service the companies and the administrators of the platform, Provisioning
--   a company with its first user, Impersonation the sessions of administrators in companies, with
--   the answers of modules/auth/strategies/jwt.strategy.ts to access tokens. A token is its
--   payload. Steps has the calls that write as a relation; Admins, Sessions and Ended are about any
--   sequence of them, Accepted about a new session, with SessionTables about what is written for
--   one.
-- - Database: an interface of tables with the laws that the services rely on, since Prisma is not
--   part of the repository, and Database/ListTable a table that is a list of rows.
--   Database/PrimaryKey is about columns of identifiers, with a table that gives new ones. That a
--   condition finds at most one row, as for a primary key, is a hypothesis where it is used.
--
-- What stands for what: an identifier or a text that is only stored, compared and tested for
-- emptiness is a number, with zero for the empty text; other texts are lists of UTF-16 code units.
-- A date is its number of milliseconds from the earliest date of ECMAScript; years before the first
-- century, which the calendar of Compensation/Periods would shift, are left out. JavaScript's
-- numbers are an interface (Compensation/Ecma) with the few laws of IEEE 754 that the sums need.
-- `null` and `undefined` are `none` where the code treats them alike. An exception is a value of
-- Error; a call that throws leaves the state as it was, unless it says otherwise. All loops are
-- recursions on lists; only run_jobs of Webhooks/Delivery has fuel, the number of jobs that run,
-- of which six are enough for the retry delays of integrations.constants.ts.
--
-- Not modelled: the texts of messages, logging, failures of the database, concurrent requests (each
-- operation is one step), the order of rows in lists that the database sorts, and the order of
-- `localeCompare`, which is a parameter. Controllers, health checks and the provider of Yandex are
-- left out as input and output, and the frontend as a user interface; the queue of payment
-- calculations, the choice of the webhooks that an event is sent to, the services of couriers,
-- zones, users and companies, login and realtime lie outside these parts.
pub mod Base
pub mod Values
pub mod Database
pub mod Access
pub mod Tenancy
pub mod Orders
pub mod Routing
pub mod Compensation
pub mod Integrations
pub mod Webhooks
pub mod Platform
