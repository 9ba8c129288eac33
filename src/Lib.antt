-- ===== src/Lib.antt =====
-- The XMTP signet broker: who may see and send what, by which credential, and how it is delivered.
--
-- The broker stands between an XMTP identity and the harnesses that act for it. An operator is
-- issued credentials; a credential carries a scope set (an allow list and a deny list), the chats
-- that it is for, and a bearer token. Each incoming message is projected through the credential's
-- scopes, chats and reveals before a harness sees it; each action of a harness is checked against
-- the same scopes. A change of scopes is classified, and what would widen a credential revokes it.
-- Events to a harness are numbered and buffered, so that it can come back. Seals tell the members
-- of a chat what a credential may do.
--
-- Files, with the code that each models (paths from the repository's root):
--   Scopes              packages/schemas/src/permission-scopes.ts: resolve_scope_set is
--                       resolveScopeSet, is_scope_in_category is isScopeInCategory
--   Policy/Pipeline     packages/policy/src/pipeline, allowlist.ts: project_message is
--                       projectMessage with its four stages
--   Policy/Permissions  packages/policy/src/permissions, scope-guard.ts: the validate functions
--   Policy/Reveal       packages/policy/src/reveal-state.ts: the store of reveals; its list is the
--                       state, and each method a function of it
--   Policy/Materiality  packages/policy/src/materiality.ts, packages/contracts/src/policy-types.ts
--   Sessions/Materiality   packages/sessions/src/materiality.ts: check_materiality
--   Sessions/Credentials   packages/sessions/src/credential-manager.ts: Store has the records, the
--                       four maps and the private helpers, Ops each method; Tokens, Bounds, Status
--                       and Runs are the proofs, and Runs has the runs of state-changing calls
--   Sessions/Policies   packages/sessions/src/policy-manager.ts, packages/schemas/src/policy.ts
--   Sessions/Operators  packages/sessions/src/operator-manager.ts: create_operator, update_operator and
--                       remove_operator are its create, update and remove
--   Sessions/Service    packages/sessions/src/service.ts and update-actions.ts
--   Sessions/Pending    packages/sessions/src/pending-actions.ts
--   Projector           packages/cli/src/ws/event-projector.ts: composes Scopes, Reveal, Pipeline
--   Seals/Delta         packages/seals/src/compute-delta.ts
--   Seals/Manager       packages/seals/src/manager.ts and build.ts: issue, refresh and revoke, each cut
--                       where it awaits the signer; Runs has the runs of calls that overlap
--   Seals/Republish     packages/seals/src/auto-republish.ts
--   Seals/History       packages/seals/src/manager.ts: list, history and needsRenewal
--   Seals/Chain         packages/seals/src/chain-validator.ts: validate_seal_chain, verify_chain_delta
--   Ws/Buffer           packages/ws/src/replay-buffer.ts
--   Ws/Sequence         packages/ws/src/event-broadcaster.ts and the replay in server.ts
--   Ws/Connection       packages/ws/src/connection-state.ts and backpressure.ts
--   Ws/Server           packages/ws/src/server.ts, connection-registry.ts, auth-handler.ts: the state
--                       of the server and a socket's calls; Limiter is the handler message, Auth is
--                       handleAuthFrame, Requests is handleRequestFrame and the heartbeat, Broadcast
--                       is broadcastToCredential and invalidateCredential, Lifecycle start and stop
--   Admin/Elevation     packages/cli/src/admin/read-elevation.ts: resolve_for_request is
--                       resolveForRequest
--   Admin/Disclosure    packages/cli/src/admin/read-disclosure-store.ts; Rollback is its tracker
--   Resource            packages/schemas/src/resource-id.ts: parse_resource_id is parseResourceId,
--                       resolve_short_id resolveShortId
--   Verifier            packages/verifier/src/rate-limiter.ts and verdict.ts
--   Base                shared helpers; Examples the concrete runs
--
-- How the state corresponds: an object with private fields is a record that each operation takes and
-- returns; a Map is a list of keys and values in the order of insertion, a Set a list without
-- repetitions; an error is a value. The hooks that a call runs are recorded in the state, in order.
-- A call runs to its end before the next one begins, and reads the clock once; times are natural
-- numbers of milliseconds, which do not overflow in the source's range. A handler of the ws server, its
-- stop, and a call of the seal manager are cut where they await an answer: each part is a step, and
-- other steps may come in between. A call of the elevation manager is not cut, though it reads the
-- clock again once the owner has approved: overlapping requests for elevations are not modelled. The
-- connections of a credential share its replay state by an address in a heap.
--
-- Parameters: the hash of a policy, the reading of a date text, the fingerprint of a token, drawn
-- ids, digits and tokens, the answers of the signer and the publisher of a seal, the schemas of a
-- seal's payload and of an operator's config, the lookups of the ws server, what its sockets
-- accept, and the answers of the owner, the audit log and the refresh of seals to a request for an
-- elevation, and the lookup of a scope guard are arguments, with no hypothesis on them except where
-- a theorem names one (an id that is drawn is new).
--
-- Bounds and fuel: every loop is a recursion over a list or over a number of rounds that the source
-- fixes (the count of a buffer, the retries that are left), so nothing runs out of fuel; only the
-- history of seals follows stored links, on two rounds more than there are stored seals, which is
-- enough where each seal is stored under its own id.
--
-- Not modelled: the HTTP and MCP servers, the runtime's sockets and timers, the command line, the
-- XMTP client, keys and vaults, the checks of the verifier and its signing, the stamping and
-- publishing of seals, and the action registry.
pub mod Admin
pub mod Base
pub mod Examples
pub mod Policy
pub mod Projector
pub mod Resource
pub mod Scopes
pub mod Seals
pub mod Sessions
pub mod Verifier
pub mod Ws
