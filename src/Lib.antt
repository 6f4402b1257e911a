-- ===== src/Lib.antt =====
-- WcsTransfer is a gateway to language models: clients call it with their API keys, it picks a key
-- of a provider for the model, forwards the request, and bills what was used to the wallet of the
-- key's owner. This library models the parts of backend/internal/ that decide these things, and
-- proves what makes them correct. Paths below are from the root of the repository.
--
-- The parts, and how they interact. A request is authenticated (Auth), passes the quota of its key
-- (Quota) and then the checks of its endpoint (Preflight, with Payload for the body and Access for
-- the key), which look up the route, put its keys in order (Routing, with KeyHealth for keys in
-- cooldown) and compare the wallet with the reserve (Billing). The upstream loop (Proxy) tries the
-- attempts and penalizes keys; the response goes to the client whole or as a stream (Serve,
-- Stream), its usage into the log (Log). The background worker (Worker) then writes the log and
-- debits the wallet (RequestLog, Wallet). Beside this, the alert services poll the database
-- (Alert), administrators and users sign in with tokens (Users, Tokens), users keep their client
-- keys in the portal (Portal, ClientKeys), and administrators the wallets and client keys (Console)
-- and the providers, their keys and the models that requests are routed to (Catalog).
--
-- - Base: names shared by all files; integers, texts, maps as association lists.
-- - Entity: backend/internal/entity/gateway.go, the records.
-- - KeyHealth: backend/internal/service/keyhealth/tracker.go. `current`, `penalize`, `clear` and
--   `enrich_keys` are its methods, with the clock as an argument.
-- - Routing: backend/internal/api/openai/handler.go, `orderedKeys`, `buildProxyAttempts`,
--   `applyChatRouteOptions`. `sort.Slice` is an insertion sort with the same comparison. A counter
--   of the round robin wraps at 2^64, and from 2^63 on its remainder may be no index, which is the
--   result `index_panic`.
-- - Json: values that encoding/json decodes; a number is a whole number divided by a power of ten.
-- - Billing: the same handler.go, `amountsForUsage` to `estimateTokensFromString`. Amounts are whole
--   numbers of 10^-16 dollars, in which every product the code makes of prices with six decimals and
--   multipliers with four is exact; the rounding of float64 is not modelled.
-- - Wallet: backend/internal/repository/postgres/store.go, the three calls that change a wallet.
--   Each is a transaction with its row locked. Which of its statements fail is an argument, `Runs`.
--   The columns of backend/migrations round what is written: `to_eight` is a balance in
--   `wallet_balance NUMERIC(18, 8)`, `to_four` an amount in the ledger's `NUMERIC(14, 4)`, which must
--   be positive. Amounts in a call, as the log bills them, are not rounded.
-- - Log, RequestLog: `chatLogState`, what is read from upstream bodies into it, `writeRequestLog`.
-- - Proxy: the loop over attempts in `handleChatCompletions`, `handleEmbeddings` and, in
--   backend/internal/api/openai/anthropic.go, `handleMessages`. `Endpoint` says which; where the
--   three differ, a definition has a clause for each. Upstream and the clock are arguments.
-- - Stream: `streamUpstreamResponse` and `extractUsageFromStreamBuffer`, and their counterparts in
--   anthropic.go. The loop over a buffer has fuel for each of its bytes, and each round removes two
--   or more; `fuel_enough` in Stream/Chunks shows that more fuel makes no difference.
-- - Payload, Access, Checks, Preflight: the three handlers before the loop. A check refuses the
--   request or passes it on with the log; Preflight composes them in the order of the code.
-- - Respond, Serve: the three handlers after the loop, and the whole of a handler. `Responder` says
--   whose response is returned, that of an endpoint or of a Gemini provider.
-- - Gemini: backend/internal/api/openai/gemini.go. Gemini/Admission is the handler up to the call
--   upstream, Gemini/Handler the whole of it, Gemini/Native the path of Google's API. The loop over
--   the keys and the answer are those of Proxy and Serve.
-- - VertexSdk, VertexStream, VertexAi: backend/internal/api/openai/gemini_vertexai.go. The SDK is the
--   interface `Sdk`; what the iterator of a stream gives is a list.
-- - Auth: backend/internal/middleware/public_api_auth.go. The store is an argument.
-- - KeyCosts, ClientKeys: backend/internal/repository/postgres/store.go, the client keys.
--   ClientKeys/Writes has the calls that change them, ClientKeys/Authenticate the call that looks a
--   secret up. Tables are lists of rows with the constraints of backend/migrations; which statements
--   fail is in the `Session`, and the hash of a secret is an argument.
-- - Portal: backend/internal/api/tenant/handler.go, the requests about client keys, and
--   backend/internal/middleware/tenant_user_auth.go. Portal/Debug: the debug route of
--   backend/internal/router/router.go.
-- - Catalog: the same store.go, the providers, their keys and the models, and the route of a name.
--   Catalog/Writes has the calls that change them with the constraints of the tables,
--   Catalog/Writes/Forms the handlers of backend/internal/api/admin/handler.go, Catalog/Listing the
--   list of models of backend/internal/api/openai/handler.go.
-- - Console: what the forms of backend/internal/api/admin/handler.go share. Console/Keys is its form
--   for a client key, Console/Wallets those for a wallet, over ClientKeys and Wallet.
-- - Users: the same store.go and both handler.go of the console and the portal, the users and their
--   sign-in. bcrypt is an argument. Users/Admins: backend/internal/middleware/admin_auth.go and
--   backend/internal/api/adminauth/handler.go.
-- - Worker: backend/internal/platform/worker.go. Steps of its goroutines are a relation.
-- - Quota: backend/internal/service/clientquota/service.go and
--   backend/internal/middleware/public_api_quota.go. Redis is the interface `CounterStore`,
--   `has_redis` says whether there is a client of it, and `CounterLaws` is what the code relies on
--   while a minute or a day lasts.
-- - Alert: backend/internal/service/walletalert, billingalert, provideralert, dependencyalert and
--   reconciliation.
-- - Tokens: backend/internal/service/adminauth, userauth and tenantauth. HMAC, base64 and JSON are
--   the interface `Codec` with the laws `CodecLaws`.
-- - Children named Types, Rows, Inputs or Marks hold the data of their parents.
-- - Examples: concrete data, and the theorems applied to it.
--
-- Texts are lists of bytes or characters; case is folded in ASCII only. Not modelled: header fields
-- of requests and answers, stored payloads, debug headers, the other handlers of the console and
-- the portal, lists and statistics that are one SQL query, start-up and configuration, the web
-- console.
pub mod Base
pub mod Entity
pub mod KeyHealth
pub mod KeyCosts
pub mod ClientKeys
pub mod Portal
pub mod Console
pub mod Catalog
pub mod Users
pub mod Routing
pub mod Json
pub mod Billing
pub mod Wallet
pub mod Worker
pub mod Log
pub mod Proxy
pub mod Stream
pub mod Alert
pub mod Payload
pub mod Access
pub mod Auth
pub mod Checks
pub mod Gemini
pub mod VertexSdk
pub mod VertexStream
pub mod VertexAi
pub mod Preflight
pub mod Respond
pub mod Serve
pub mod Quota
pub mod Tokens
pub mod Examples
pub mod RequestLog
