-- ===== src/Lib.antt =====
-- KUB, a CRM in Go for sales, documents and their signing: the rules that decide who may see and
-- change what, and the state machines of leads, deals, documents, sign sessions
-- and confirmations of signatures.
--
-- How the program is put together. HTTP handlers (internal/handlers, internal/routes) take the number
-- of the caller's account and of its role from a token and call a service (internal/services); a
-- service asks internal/authz what the role may do, resolves the caller's data scope (scope.go), and
-- reads and writes PostgreSQL by a repository (internal/repositories). Handlers and SQL text are
-- left out; a repository is modelled as the table that its queries read and write.
--
-- The files.
--   Base: native numbers, Go's strings, lists, tables with a key, errors, and handlers: functions
--     from a store to a result and a store, for what was written before an error stays written.
--   Authz: internal/authz. Roles is roles.go, Scopes is scopes.go, Permissions is permissions.go;
--     Matrix compares the tests on roles with the table of permissions, Separation is about who may
--     delete, Effective about the widest scope and the menu.
--   Models: the records of internal/models, the fields that the services here read.
--   DataScope: internal/services/scope.go; Fences is what a scope keeps an account away from.
--   Leads: Rows, Table and Listing are internal/repositories/lead_repository.go with the routing by
--     scope; Service is lead_service.go, and Conversion the conversion to a deal there, with the
--     transaction of the repository; Transitions is status_transitions_service.go, and Requests is all
--     that the service is asked for. Visible is about listings; Outcomes, Converting and Converts
--     classify how each operation may end; NewDeals is about the deal that is made, Branches about the
--     fence of the branch, and Guards about read-only roles and failures.
--   Deals: Table is the queries of deal_repository.go, funnel_stage_repository.go and
--     funnel_transition_rule_repository.go that these operations make; Stages is MoveStage and
--     applyTransitionRules of deal_service.go, Hops and Moves their properties; Service is the other
--     operations on one deal, and Guards what all of them keep.
--   Phone: internal/utils/phone.go; Canonical is what it gives back.
--   SignSessions: Table is sign_session_repository.go; Service and Signing are
--     sign_session_service.go, up to new sessions and from the codes on; Steps is the state machine
--     that the requests of the service make of one session, with a child module for each kind of
--     request; Keys is about finding rows, and Lifecycle, Guesses and Limits are the invariants.
--   Accounts: Table is the rows of user_repository.go and password_reset_repository.go that
--     password_reset_service.go uses, which is Reset; Owner and SingleUse are its properties. Verification is
--     user_verification_service.go with verification_code.go and user_verification_repository.go,
--     Requests what each of its requests does, and Confirmed its properties.
--   Approvals: Table is user_approval_request_repository.go, Service is user_approval_service.go over
--     the interface UserService; Effects is what each request does, Resolution the properties.
--   Documents: Table is document_repository.go, Access is who reaches a document in
--     document_service.go, Service the steps of its status, the archive and its creation, Files its
--     storage, uploads, deletion and signed copy, Reading what is read and listed. Requests is the
--     state machine of these; Reach, Effects and Serving say how each request may end, Lifecycle,
--     Runs, Fences and Pages are the properties.
--   Confirmations: Meta is the JSON of signature_confirmation_repository.go's rows, Table its queries;
--     Service, Starting, Confirm and Opening are document_signing_confirmation_service.go: what its
--     operations share, the start, the codes, and the pages, previews, Telegram and the status.
--     Requests is the state machine of these; Finding, Codes, Answers, Pages, Serving, Begun and
--     Polling say what each request does, Lifecycle and Roundtrip are the properties.
--   Funnels: Table is what funnel_stage_repository.go and funnel_transition_rule_repository.go write,
--     Copies the loop of Duplicate; Service is funnel_stage_service.go and
--     funnel_transition_rule_service.go, and Requests the state machine of these. Links, StageSteps
--     and RuleSteps are about the rules between stages, Deletion about the deals of a deleted stage,
--     Codes about the loop.
--   Each part has a module Examples with runs and with its theorems at concrete inputs.
--
-- What stands for the world. A call's `Env` or `Call` holds the clock, the answers of other
-- components, random values and, for each query, whether the database refuses it: the theorems hold
-- for every choice. Hash functions, URL decoding, LIKE and ORDER BY are parameters. Handlers are
-- single transactions: one request is finished before the next begins.
-- The loop over transition rules is recursion on the hops that are left; the source counts the depth
-- from 1 and stops above 10, so that ten hops are the whole of it and no fuel can run out.
-- The loop of Duplicate has no bound in the source; two turns more than there are stages are fuel
-- enough, where Sprintf gives different codes for different numbers.
-- The amount of a deal is given by the bits of its float64, which the conversion compares with zero.
-- Times are natural numbers of nanoseconds; `now - span <= t` is written `now <= t + span`.
--
-- Not modelled: HTTP, SQL text, logging, files and third-party services; the generation of
-- documents from templates; the funnels themselves, their board and their listings; clients, tasks,
-- chats, users, reports, telephony and messengers.
pub mod Base
pub mod Authz
pub mod Models
pub mod DataScope
pub mod Leads
pub mod Deals
pub mod Phone
pub mod SignSessions
pub mod Accounts
pub mod Approvals
pub mod Documents
pub mod Confirmations
pub mod Funnels
