-- ===== src/Lib.antt =====
-- StreamVault's web frontend (frontend/), and of its services (backend/) the accounts, the files
-- with their versions, the tree of folders and the share links, which the frontend relies on.
--
-- How the parts interact. A user signs in with lib/auth.ts; its session hands the tokens to
-- lib/api/token.ts. Every request of lib/api goes through the interceptors of lib/api/http.ts,
-- which read the token from there and refresh it once after a 401; lib/api/session-bridge.tsx
-- writes the new token back into the session. The hooks of lib/hooks keep the answers under query
-- keys and invalidate them after each mutation; lib/api/ws.ts keeps the WebSocket of the
-- notifications open, and what it delivers goes into the same cache. The pages of app/ show that
-- data and call the hooks.
--
-- Which file models what. State is a record with the source's fields, an event or a user's action
-- is a data type, and a handler is a function from a state to a state and a list of effects;
-- `step` and `run` compose the handlers the way callbacks, timers and clicks do.
--
--   Token          frontend/lib/api/token.ts. A refresh is a chain of promises: `advance` is one
--                  of its `then`s, and a caller of refreshAccessToken gets the number of its
--                  promise.
--   Http           frontend/lib/api/http.ts. `instance_call` is a call with both interceptors.
--                  Its fuel counts the attempts, and two are enough (Http.Laws).
--   Socket         frontend/lib/api/ws.ts. NotificationSocket with every WebSocket and timer that
--                  it has made, so that late events of old ones are covered.
--   Auth           frontend/lib/auth.ts. authorize, and the jwt and session callbacks.
--   Bridge         frontend/lib/api/session-bridge.tsx, between the session and the token store.
--   Notifications  frontend/lib/hooks/use-notifications.ts: optimistic marking, and in
--                  Notifications.Live the effect that makes a socket for each access token, with
--                  the objects of earlier effects kept. Notifications.Popover renders the list.
--   Upload         frontend/lib/hooks/use-upload.ts. The list of resumable uploads.
--   Versions       frontend/lib/hooks/use-file-versions.ts and frontend/lib/api/uploads.ts.
--   Requests       frontend/lib/api/*.ts: the request that each function makes.
--                  Requests.Placement is updateFile and updateFolder of backend/cmd/api-svc, from
--                  the decoded body on.
--   Keys           frontend/lib/hooks/use-*.ts: query keys, invalidation and polling.
--   Server         Server.Folders is backend/cmd/api-svc/handlers_folder.go: the table of
--                  folders, the test for cycles and the handlers, one after another (Answers) or
--                  interleaved (Race), and what deleteFolder takes out (Removal). Server.Shares
--                  is handlers_share.go of api-svc and of upload-svc. Server.Files is the table
--                  of files: handlers_file.go and handlers_versions.go of api-svc, deleteFolder
--                  with the files and shares (Tree), and of upload-svc handlers.go,
--                  handlers_versions.go (Uploads) and the end of an upload in handlers.go and
--                  tus.go (Completion). Reached composes the handlers. Server.Accounts is
--                  backend/cmd/auth-svc and RequireAuth of backend/internal/middleware.
--   View, Pages    frontend/app: signin, sign-up, forgot-password, reset-password, share/[token],
--                  and in dashboard the layout, overview, files, profile and shared. A page's
--                  view says what is shown and what can be clicked, and an action takes place
--                  only if the view offers it.
--   Dialogs        frontend/components/files: the version history, share, upload and video
--                  dialogs.
--   Sharing        a link on its way from the share dialog over the server to its public page.
--   Resetting      a reset of a password over the page and the server to the sign-in.
--   Failure        `instanceof ApiError ? message : text`, and async functions with try and
--                  catch.
--   Prelude        what the others share. Tests holds the theorems at concrete inputs.
--
-- Bounds. Numbers are natural numbers; the sizes that formatBytes gets are below 2^53, for which
-- five divisions by 1024 and four decimal digits are enough (six divisions on the dashboard).
-- Times are in milliseconds in the frontend and in nanoseconds on the server, where a
-- time.Duration wraps at 64 bits. The loop of isDescendant takes fuel, one for each folder on the
-- way up, and `none` is a loop that has not ended; Server.Folders.Walk and Answers say when fuel
-- is enough. deleteFolderTree takes fuel for the depth of the folder, which Server.Folders.Depth
-- bounds. On the server an int64 that cannot be negative is a natural number; the one sum that can
-- leave that range, in checkQuota, wraps at 64 bits (Server.Files.Uploads).
--
-- What is a parameter. axios (how the network answers), fetch, tus-js-client and the browser's
-- WebSocket (events), TanStack Query (which keys an invalidation matches), zod's test of an
-- address, the decoding of a token's payload, the other services, toLowerCase, encodeURIComponent
-- and date-fns; for the server, the type of uuids with its equality (Prelude.Equality), the
-- hashing of passwords, the signing and parsing of session tokens, random tokens, new uuids and
-- their texts, the storage with its URLs, and the table of users with their quotas; for the share
-- links, the table of files.
--
-- What is not modelled. Styles, icons and animations; the UI kit, the root layout and the static
-- pages, which hold no logic of their own; in the services, the notifications and statistics,
-- which the frontend sees as answers; the failures of the database, the removal of objects from
-- the storage and of staging files, and the order by name of a list; the workers; and the
-- deployment.
pub mod Prelude
pub mod Token
pub mod Http
pub mod Socket
pub mod Notifications
pub mod Upload
pub mod Failure
pub mod Versions
pub mod Auth
pub mod Requests
pub mod Keys
pub mod Bridge
mod Tests
pub mod View
pub mod Server
pub mod Pages
pub mod Dialogs
pub mod Sharing
pub mod Resetting
