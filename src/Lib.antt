-- ===== src/Lib.antt =====
-- Verification library of CodexLink, a bridge that gives a coding agent read access to a workspace over
-- MCP and OAuth.
--
-- The parts modelled and how they interact. A person pairs a client with the bridge by a short code
-- (`internal/auth/pairing.go`); the code's random text is drawn by `randomString`; requests to the OAuth
-- endpoints pass a limiter first (`internal/auth/limits.go`). The endpoints (`internal/auth/http.go`)
-- show the pairing page, take the pairing code and give an authorization code for it, exchange that for
-- tokens, with the client named by its identifier or by a signed assertion
-- (`internal/auth/client_assertion.go`), refresh and revoke tokens, and let requests with a token through
-- to the rest of the bridge. The codes and tokens are in the store (`internal/auth/store.go`). A request
-- that is let through reads files in ranges (`internal/workspace/text.go`), unless the policy hides them
-- (`internal/workspace/policy.go`). Independently, the control store (`internal/control/store.go`) hands
-- out requests (`Prepare`), takes one response for each (`Submit`), and keeps them in a file; and a
-- workspace's session is merged, viewed and cleared (`internal/session/session.go`).
--
-- Files:
--   Prelude         helpers: tests, lists, results, association lists for Go maps, integers, the clock in
--                   nanoseconds, texts as code points, base64
--   Auth/Limits     `requestLimiter`: `Allow` is `allow`, in the steps `expire`, `bucket_for`, `charge`
--   Auth/Random     `randomString`: `random_string`, over the reads that the random source gives
--   Auth/Pairing    `PairingManager`: `create`, `verify`, `status`, `invalidate`; in Code the reading of
--                   codes (`normalizePairingCode`); Sessions and Attempts are about histories of calls
--   Auth/Resource   `CanonicalResource`, `sameResource`, `AllowedRedirectURI`
--   Auth/Scopes     `ParseScopes`: `parse_scopes`
--   Auth/Store      the OAuth `Store`: pruning and saving; Issue has `CreateAuthorizationCode`,
--                   `ExchangeAuthorizationCode`, `issueTokensLocked`; Refresh has `Refresh`; Access has
--                   `VerifyAccess` and the revocations; Clients has the registration; Loading has
--                   `NewStore`. Gone and Used are about histories of calls (History), Sound about who
--                   gets tokens, Granted about what they are good for, Revoked about revocation,
--                   Bounds about capacities, Kept about refused refreshes and accepted tokens,
--                   Clients/InUse about the clients that a registration keeps
--   Auth/Redirects  `RedirectURIMatches`, `parseMetadataClientID`, `ValidChallenge`
--   Auth/Assertion  `ClientAssertionVerifier.Verify`: `verify`; Window is about the times in an assertion
--   Auth/Server     the state of `OAuthServer`; Authorize has `authorize`, `authorizeStart`,
--                   `authorizeComplete`; Token has `token`, `authenticateTokenClient`,
--                   `recordAssertionJTI`; Access has `revoke`, `registerClient`, `BearerMiddleware`.
--                   Calls and Histories are about histories of requests, Pending about what waits for a
--                   pairing code, Coded and Approved about what a pairing code gives, Flow about the way
--                   from an approved authorization to a request that is let through, Recorded, Used and
--                   Replay about assertions, Untouched and Forgotten about what calls leave, Revoked about
--                   revocation
--   Control         internal/control/model.go
--   Control/Paths, Control/Validation
--                   `validateSubmission`, `validateRecord` and what they use
--   Control/Store   `Store`: saving and pruning; in Calls `Prepare`, `Submit`, `Get`, `Cancel`; the
--                   modules below are about one call (Exchange, Reuse), the invariant (Invariant,
--                   Preserve), and histories (History, Responses); in Loading `NewStore`
--   Session         `NormalizeProjectURL`, `Resolve`, `Merge`, `ClearChat`; Merged is about `Merge`,
--                   ChatGone about `ClearChat`
--   Workspace/Text  `readTextRange`: `read_text_range`, a fold of `read_line` over the lines; Utf8 has
--                   `utf8.Valid`; Lines, Counted, Range and Result are about what is returned, Stuck about
--                   where it stops
--   Workspace/Policy
--                   `compileIgnoreRule`, `newRuleSet`, `matches`, `NewPolicy`, `IsSensitive`, `IsNoise`,
--                   `MatchGlob`; Glob has the compiled expressions and their matching. Reads and Whole
--                   tell what an expression matches, Last which rule decides, Plain, Names and Named what a
--                   pattern without wildcards does, Builtin what a workspace's own rules cannot change
--
-- A handler of an HTTP endpoint is one function from the server's state and the parts of the request that
-- the code reads to the state it leaves and the parts of the response that matter: the status, the
-- error's code, the location or the tokens. A handler that calls the store or the pairing manager calls
-- their functions in the code's order. The check and the recording of an assertion are in one such step.
--
-- Conventions. A method that holds a mutex is one function from the state to the state that it leaves and
-- its result; histories are lists of such calls in any order. The readings of the clock, the bytes of
-- the random source and the outcome of each write of a file are arguments, so that every failure is a
-- case of the model. A Go map is an association list with each key once; where a loop over a map
-- depends on its order, the code sorts first, and so does the model. Times are nanoseconds from year 1,
-- whose zero is the zero `time.Time`; times do not overflow, since all are sums of a reading of the clock
-- and a few hours or days. Counts are below the configured limits, far below 2^63.
-- Line numbers are below 2^63 - 2000, so that no sum of them wraps. A file is a list of bytes, a path and a
-- pattern are lists of code points. The separator of paths is `/`, so that `filepath.ToSlash` changes nothing;
-- what it does on Windows is not modelled.
-- No model uses fuel: each loop is recursion on a list, a number or the reads it is given.
--
-- Parameters: SHA-256, JSON, base64, RSA signatures and net/url, which are code of Go's library;
-- `hashValue` and `PKCEChallenge`, which are SHA-256 with an encoding, are taken whole; also the
-- registration's reading of client metadata, and the fetching of metadata documents and of key sets.
-- A theorem that needs the hash to tell texts apart says so.
--
-- Not modelled: HTTP wiring and pages, MCP dispatch, the git and file system access of the workspace,
-- searching, tunnels, processes, set-up and configuration, which are glue around the operating system and
-- other programs; the normalization of client metadata; the checks of the location and mode of the control
-- file; patterns with an empty class; and error messages.
mod Prelude
pub mod Auth
pub mod Control
pub mod Session
pub mod Workspace
