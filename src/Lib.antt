-- ===== src/Lib.antt =====
-- A model of the Kritviya API (apps/api), the NestJS server behind the global dashboard, and the
-- theorems about it.
--
-- The server keeps its state in a database that it reaches by Prisma. A table is a list of rows
-- here, a query is `find`, `keep` or `count` with the test of its `where`, and `create` and
-- `update` give the table after the call. A service is a record of the tables it writes, with the
-- calls that it makes of other services as lists in their order. A handler takes the tables and
-- gives `ok` of the new tables and its answer, or `fail` of the HTTP error that it throws; the
-- handlers modelled throw before their first write, but where a comment says otherwise. A handler
-- runs to its end before the next one, as one request after another; races between two requests
-- are not modelled.
--
-- The parts, and the files that model them:
--
-- - Base: what the parts share. Base/Http has the exceptions and their monad, Base/Lists the
--   queries, Base/Members what they give, Base/Paging the pages of a list, Base/Tests Boolean
--   tests and splits, Base/Text `trim` and `startsWith` on texts, Base/Numbers parseInt,
--   Base/Users the roles, the signed-in user (apps/api/src/auth/auth.types.ts) and getActiveOrgId
--   (apps/api/src/common/auth-org.ts).
-- - Auth: apps/api/src/auth. Auth/Window is enforceWindowRate and its callers, Auth/JwtGuard is
--   JwtAuthGuard.canActivate for sessions and API tokens, Auth/Scopes is RolesGuard,
--   TokenScopeGuard and assertTokenScope. Every request of the other parts passes here and gets
--   its user from it. Proofs: Auth/Window/Quota, Auth/JwtGuard/Tokens and Limits,
--   Auth/Scopes/Access.
-- - Allowlist: apps/api/src/common/ip-allowlist.util.ts and, in Allowlist/Middleware, the class
--   IpAllowlistMiddleware of apps/api/src/common/middleware, which stands before Auth on the routes
--   of the administration. Proofs: Allowlist/Blocks, and Allowlist/Guarded with the guard of Auth.
-- - Incidents: apps/api/src/incidents/incidents.service.ts. Incidents has the tables,
--   Incidents/Lifecycle acknowledgeIncident, resolveIncident, updateIncidentSeverity,
--   addIncidentNote and getIncident, Incidents/Publication publishIncident, unpublishIncident,
--   addPublicUpdate and upsertPostmortem, Incidents/FromAlerts what the alerts call,
--   Incidents/Slug the search for a free public slug, Incidents/Range the range of the metrics,
--   Incidents/Metrics listIncidents, getPostmortem and getMetrics. Incidents/Changes gathers the
--   calls into one step; its children, Incidents/Invariant, Incidents/Access, Incidents/Averages
--   and Incidents/Slug/Free hold proofs.
-- - OnCall: apps/api/src/oncall/oncall.resolver.ts, which the incidents ask who may acknowledge.
--   OnCall/Coverage is isInCoverageWindow, isHoliday and getScheduleState, OnCall/Slots is
--   computeSlotIndex and pickUserForTier, OnCall/Resolver is resolveNow with its chain of
--   fallbacks. Proofs: OnCall/Windows, Rotation, Fallback and Answers.
-- - Invoices: apps/api/src/invoices/invoices.service.ts. Invoices has the tables and the private
--   helpers, Invoices/Handlers create, update, send, markPaid and unlock, Invoices/Filter findAll.
--   Invoices/Status is the life of one invoice that the handlers refine; its children,
--   Invoices/Locks and Invoices/Pages hold proofs.
-- - Webhooks: apps/api/src/org-webhooks/webhook.service.ts, which the invoices call when a status
--   changes. Webhooks/Delivery is dispatchToEndpoint, Webhooks/Jobs is dispatch with the jobs that
--   it collects, Webhooks/Retries the retries and the test trigger. Proofs: Webhooks/Attempts,
--   Failures and Installs, and the end of Webhooks/Retries.
-- - Routing: apps/api/src/alerts/alert-routing.service.ts, which delivers the alerts that the
--   incidents are created from. Routing/Channels is deliverByChannelType with the webhook, the mail
--   and Slack, Routing/Jobs is processDeliveryJob, Routing/Routes the choice of the channels.
--   Proofs: Routing/Once, Breakers and Again, and the end of Routing/Routes.
-- - Alerts: apps/api/src/alerts/alerts.service.ts and alerting.service.ts. Alerts has the tables,
--   Alerts/Spikes recordFailure with its mitigations, Alerts/Steps and Alerts/Quiet the steps and
--   the quiet hours of a policy, Alerts/Scan runEscalationScan, which asks OnCall who is on call,
--   routes by Routing and writes to the timeline of Incidents, Alerts/Handlers and Alerts/Trials
--   the handlers, with validateChannelConfig and sendTest of alert-routing.service.ts. Proofs:
--   Alerts/Loop (induction over a scan), Rows, Counts, Progress, Silence, Quieted, Normal, Bursts
--   and History.
-- - Fixes: apps/api/src/fix-actions/fix-actions.service.ts. Fixes has the tables, Fixes/Actions
--   executeTemplate with its four actions, Fixes/Service createRun, confirmRun, executeRunById and
--   previewRun. Proofs: Fixes/Truth (previews), Settled and Results.
-- - Autopilot: apps/api/src/autopilot/autopilot.service.ts, which acts by Fixes.
--   Autopilot/Conditions is evaluateCondition and requiresApproval, Autopilot/Evaluate is
--   evaluateAndExecute, Autopilot/Runs the handlers of runs and policies. Proofs:
--   Autopilot/Restraint and Undo.
--
-- The witnesses of a part stand in its file Examples. What a service asks of another is an argument
-- or a list of calls, so that each part can be read alone.
--
-- Numbers are natural. Times are milliseconds since the epoch, amounts hundredths, and a
-- difference that the source cuts at zero by Math.max is the natural one. Identifiers that the
-- database gives are arguments, as are the clock, the JWT library, SHA-256, isIP of node:net,
-- Intl.DateTimeFormat, toUpperCase and toLowerCase, the date of a text, the order that the
-- database sorts by, and what requests to other servers end with.
--
-- Fuel: the search for a slug has one round for each incident and one more, and the chain of
-- fallbacks one round for each schedule and one more. Both are shown to suffice. Every other loop
-- is structural.
--
-- Not modelled: the web client, the controllers and modules of the framework, the services that
-- only read or aggregate, the calls of outside services, and the parts of apps/api/src not named
-- above.
pub mod Base
pub mod Auth
pub mod Incidents
pub mod OnCall
pub mod Invoices
pub mod Webhooks
pub mod Routing
pub mod Alerts
pub mod Fixes
pub mod Autopilot
pub mod Allowlist
