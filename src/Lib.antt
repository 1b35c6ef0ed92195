-- ===== src/Lib.antt =====
-- Planeo: projects, issues and service requests of a workspace, with its access rules and searches.
--
-- The program is a web application: the handlers of src/app/api check a request, call the modules
-- of src/lib, and those read and write one database, which the scripts of ops work on too. The
-- development models modules of src/lib, handlers of src/app/api and scripts of ops; what the
-- database, Node and JavaScript's library answer are parameters, with what is relied on as named
-- hypotheses.
--
-- - Permissions: src/lib/permissions.ts. Every handler asks it before it acts. `candidates` and
--   `explain_project_permission` are explainProjectPermission; Permissions/Validation is
--   validatePermissions; Permissions/Security is validateSecurityGrants and matchesIssueSecurity;
--   Permissions/Visibility is issueSecurityWhere, whose filter is a list of `Branch`, and
--   canViewIssue. `PolicyDb`, `SecurityDb` and `BranchLaws` stand for the database.
-- - Hierarchy: src/lib/hierarchy.ts, with Chain for chains of parents. `Store` holds the issues of
--   the workspace, the activity and the audit log; `plan_move` is what reparentIssue checks and
--   `commit` is its transaction, with the version that it compares. `walk` is the loop over the
--   ancestors. Its fuel is the number of issues and two, which is enough since every round passes
--   an issue that was not passed before, or ends.
-- - DependencyGraph: src/lib/dependency-graph.ts. `search` is the loop of introducesCycle over its
--   queue; the map of targets that the code builds first is read off the links by `outgoing`. Its
--   fuel is the number of links and two, since each link is put into the queue once at most.
-- - RateLimit: src/lib/security.ts. `consume_rate_limit` is a step on the list of buckets.
-- - AdvancedQuery: src/lib/advanced-query.ts. Lexer is tokenize, Parser is parseAdvancedQuery and
--   its inner functions, whose shared cursor and cost are passed along, and Compile is compile and
--   what it calls. A text is a list of UTF-16 code units. The tokenizer has a unit of fuel for each
--   character and one more; the parser has five for each token and three more. The fault
--   `unfinished` marks the end of fuel.
-- - Workflow: src/lib/workflow.ts, which the handlers of issues and queues ask before they change a
--   status. `evaluate_transition` is evaluateTransition over the rows of the project's transitions,
--   in the order of the query; `holds` is one arm of matches, `validator_error` is validatorError.
--   Workflow/Conditions describes what these ask for without the code, and Workflow/Drafts is
--   validateWorkflowDraft, for the transitions that replace those of a project.
-- - CustomFields: src/lib/custom-fields.ts. `check_keys` and `normalize_all` are the two loops of
--   validateCustomFieldWrites, `normalize_value` is normalizeValue; `World` is what they ask.
--   CustomFields/Definitions is validateFieldDefinition.
-- - Identity: who may act. `Directory` holds the tables of users, members, sessions, invitations and
--   the audit log. Identity/Passwords and Identity/Sessions are src/lib/auth.ts; `Coding`, `Hashing`
--   and their laws stand for Node's cryptography and codings. Identity/Members is PATCH of
--   src/app/api/workspace/members/[userId]/route.ts; Identity/Invitations is GET and POST of
--   src/app/api/invitations/[token]/route.ts, where the rows that a request reads and the rows that
--   its transaction finds are two states; Identity/Invitations/Manage is PATCH of
--   src/app/api/workspace/invitations/[id]/route.ts. Identity/Organizations is
--   src/lib/enterprise-organization.ts, Identity/Login is POST of
--   src/app/api/auth/login/route.ts, and Identity/Resets POST of
--   src/app/api/auth/password-reset/confirm/route.ts. Identity/ProjectMembers is
--   src/app/api/projects/[key]/members/route.ts, and Identity/Scim src/lib/scim.ts.
-- - Issues: src/app/api/issues/[id]/route.ts. `delete_issue` is DELETE. Issues/Body reads the body
--   of PATCH block by block, Issues/Commit is its transaction, which asks Workflow and CustomFields,
--   and Issues/Patch is the handler, again on the rows that it reads and on those that its
--   transaction finds. Jobs for the workers are entries of `Store`. Issues/Create is
--   src/app/api/issues/route.ts, whose `Board` adds the counters and the numbers of the projects.
-- - Goals: src/lib/goals.ts. `climb` is the loop of validateGoalParent, whose 100 rounds are the
--   source's own bound; with Chain, an accepted parent is judged by the chain of parents.
-- - Sla: the clocks of service goals, ops/sla-engine.mjs and ops/sla-worker.mjs. Sla/Calendar is
--   validateCalendar, Sla/Rules is validateConditions, matches and validateRules, and Sla/Hours is
--   intervals, businessMilliseconds, businessThreshold and accrue. Local times are Intl's, given by
--   a function. The loops over days have one round more than there are days before the end, which
--   is enough since they stop there. Sla/Worker is processSlaRequest on the rows of one request;
--   Sla/Worker/Request has its loops.
-- - Portal/Forms: src/lib/service-requests.ts. `parse_portal_schema` reads the form of a request type,
--   and `validate_portal_submission` what a customer submits with it.
--   `supplied_value` is a property of what was submitted, as JavaScript reads it: a key that is not
--   there may be one of Object.prototype's.
--   Portal/Auth is src/lib/portal-auth.ts: the sessions and the tokens of customers.
-- - Retention: src/lib/retention.ts. One type of row stands for the tables of the eight classes, with
--   the columns that are read, and `execute_deletion` is the job from its guards to its evidence.
-- - Queues: src/lib/service-queues.ts, with accessibleProjectWhere of src/lib/project-query.ts. Queues
--   is parseQueueDefinition, queueProject and queueFilter; Queues/Snapshots takes and reads snapshots;
--   Queues/Actions is applyQueueAction, which asks Workflow and CustomFields as Issues/Commit does.
-- - SavedFilters: src/lib/saved-filter.ts; SavedFilters/Requests is the handlers of
--   src/app/api/saved-filters, which use the parser of AdvancedQuery and accessibleProjectWhere.
-- - Webhooks: ops/webhook-destination.mjs, the addresses that a webhook may be sent to, but for the
--   request itself. isPrivateAddress calls itself on a shorter text, so one round more than there are
--   characters is enough.
-- - Prelude: what the modules share: tests on numbers, lists, fallible results, texts, integers and
--   the values of JSON.
--
-- Not modelled: hierarchySummary and analyzeDependencies; postPinnedHttps, which sends a request; the
-- other modules of src/lib, the other handlers of src/app/api, the user interface and the other
-- scripts of ops. The texts of messages are left out where an error's kind tells them apart. A
-- transaction is one step, so a conflict that the database reports is no error of the model. A numeral
-- of a query is its exact value, where JavaScript rounds above 2 ^ 53.
pub mod AdvancedQuery
pub mod Chain
pub mod CustomFields
pub mod DependencyGraph
pub mod Goals
pub mod Hierarchy
pub mod Identity
pub mod Issues
pub mod Permissions
pub mod Portal
pub mod Prelude
pub mod Queues
pub mod RateLimit
pub mod Retention
pub mod SavedFilters
pub mod Sla
pub mod Webhooks
pub mod Workflow
