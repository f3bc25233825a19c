-- ===== src/Lib.antt =====
-- Signara's signing service, certificates, sign-in and webhooks.
--
-- Signara collects signatures on documents. A sender creates a request for a document with signers in
-- an order; each signer gets a link with a token, opens a session, fills the fields that are placed
-- for them and signs or declines; the service advances the request, keeps an audit trail, and tells
-- the subscribers of the tenant by webhooks. The model follows the services of apps/api, one module
-- for each part of a service:
--
--   Db            the tables of packages/database/prisma/schema.prisma as lists in the order of
--                 creation, and the job queues; Db/Rows has the rows, Db/Enums the enums
--   Exec          a handler: it takes the database, throws an HTTP exception or returns, and gives
--                 the database back in both cases, since no transaction spans a handler
--   Env           the clock, the generators, text functions and the configuration, as parameters
--   User          the authenticated caller (apps/api/src/common/types.ts)
--   Signatures    apps/api/src/modules/signatures/signatures.service.ts
--     Turn        canSignNow, canSignerAct          Trail      recordEvent and its webhooks
--     Fields      placements and their values       Workflow   advanceWorkflow, expiry, invitations
--     Access      loading a session by its token    Sign       sign
--     Decline     decline                           Session    publicSession, publicEvents
--     Demo        ensureDemoSession                 Control    cancel
--     Reminders   remind, sweepDueReminders         Create     createRequest
--     InPerson    inPersonSession, selfSign         Evidence   evidenceReport
--     History     the handlers as steps, and what every sequence of them keeps
--     Lifecycle   the status of a request as a machine, which the handlers refine
--   Webhooks      apps/api/src/modules/webhooks/webhooks.service.ts
--     Events      WEBHOOK_EVENTS, resolveEvents     Emit       emit, enqueue
--     Hosts       isPrivateHost                     Endpoints  create, list, remove, ping, setActive
--     Health      describeHealth and the sweep      Deliver    deliver
--   Certificates  apps/api/src/modules/certificates
--     Assurance   identity-assurance.ts             Rows       the table and the parameters
--     Parse       parseCertificatePem               Issue      import, provision, revoke
--     Listing     list, get, providerStatus         Signing    signWithCertificate
--     Verify      verify                            Evidence   what is handed to sign
--   Crypto        apps/api/src/common/crypto.ts
--   Accounts      users, tenants with their members, roles, workspaces and teams, sessions, API keys
--   Auth          apps/api/src/modules/auth/auth.service.ts
--     Redirect    login states, safeNextPath        Login      loginWithIdp
--     Sessions    refresh, revokeSession, logoutAll, createSession
--   Guards        apps/api/src/common/guards, in the order of apps/api/src/app.module.ts
--     Principal   resolvePrincipal, authenticateApiKey
--   ApiKeys       apps/api/src/modules/api-keys/api-keys.service.ts
--   Organizations apps/api/src/modules/organizations/organizations.service.ts, common/roles.ts
--   Members       apps/api/src/modules/users/users.service.ts
--   Posture       apps/api/src/config/secret-posture.ts
--   Text          texts as lists of their characters, with splitting and joining
--   Examples      a small deployment on which the model runs
--
-- A handler of the source is a function of the same name in snake case, split at its guards (x_guards
-- or check_x) and its writes (finish_x). The signing service writes the trail by record_event, which
-- emits the webhook of the event; emit adds the deliveries and their jobs.
--
-- Instants are milliseconds and ids are numbers, which are compared for equality only. All loops are
-- over lists, or over the 20 candidates of a slug, so nothing runs on fuel. Parameters stand for the
-- platform and for third-party code: the members of Env, CertEnv, AuthEnv, GuardEnv, KeyEnv, OrgEnv,
-- MemberEnv and ProcessEnv (clock, generators, configuration, node:crypto, node-forge, jsonwebtoken,
-- the JWKS client), the cipher of Crypto, and the HTTP exchange of a delivery. The signing service
-- takes signing with a certificate as a parameter (Certify), which Signatures/Sign/Certified fills
-- with that of Certificates/Signing. Each service has a state of its own tables: Db, Certs and
-- Accounts. A handler reads the clock once. The log is left out, and so are the texts of errors that
-- name rows. A step of History is a whole call, and visits to the demo's session, which delete its
-- former rows, are no steps; in Auth a refresh may be cut between its lookup and its claim. The jobs
-- are the calls of add: dropping a job whose id is there already is left to the queue, and no error
-- of the transport of a delivery is taken to carry the service's own text for a refused one.
--
-- Not modelled: the web app, documents, templates, the listings of members, billing, branding, the
-- exchanges with the identity provider and with the certificate providers, the mailer and the queue
-- processors, storage, configuration, and in the signing service the listings of requests and the
-- bytes of the demo document.
pub mod Prelude
pub mod Exec
pub mod Env
pub mod User
pub mod Text
pub mod Crypto
pub mod Accounts
pub mod Auth
pub mod Guards
pub mod ApiKeys
pub mod Organizations
pub mod Members
pub mod Posture
pub mod Certificates
pub mod Db
pub mod Webhooks
pub mod Signatures
pub mod Examples
