-- ===== src/Lib.antt =====
-- NumDuel: a duel of two players who guess each other's secret of four different digits. The
-- server is Go, in backend/; it keeps its rows in a database through GORM, its locks, turns and
-- revoked tokens in Redis, and tells the players what happens over a socket.
--
-- The parts and their files:
-- - Prelude: numbers, Booleans and lists that the other files share.
-- - Model: backend/model, the rows and the errors (Model/Entities, Model/Enums, Model/Errors),
--   with mapRepoNotFound and mapValidationErr of backend/usecase/errors.go.
-- - World: the state that a request acts on, which is the tables, the Redis server, the events
--   that were sent and the number of calls so far (World/State); the calls that act on it and may
--   fail (World/Monad), with WithTx of backend/repository/tx.go; calls that only read, fail whole
--   or end well (World/Effects, World/Progress); and what the program calls but does not
--   implement (World/Outside).
-- - Repository: the queries of backend/repository, and the records of
--   backend/usecase/activity_log.go; the purges and the connections of log.go are in
--   Repository/Retention and Repository/Connections, ranking.go in Repository/Rankings.
-- - RedisStore: backend/redis/store.go, with its scan for turns in RedisStore/Expired.
-- - Crypto: backend/crypto/secret.go (Crypto/Secret), random.go (Crypto/Random), and token.go
--   with password.go (Crypto/Token).
-- - Game: the use cases of a game in backend/usecase. Game/Judge, Game/Validate and Game/Rules
--   are judge.go, game_validate.go and game_logic.go; Game/UseCase is game.go; Game/Play and
--   Game/Notify are game_play.go; Game/Timeout is handle_timeout.go and game_recovery.go.
--   Game/Rules/Lifecycle is the life of one row as a relation of steps, and Game/Invariant ties
--   the transactions to it. Game/Refinement has the duel as the players know it, which a row
--   stands for by `view`, and Game/Play/Allowed and Game/Play/Total have the conditions under
--   which a guess is accepted.
-- - Matching: backend/usecase/matching.go.
-- - Api: the answers of backend/dto/response.go and backend/websocket/errors.go (Api/Errors) and
--   the limiter of backend/middleware/rate_limit.go (Api/RateLimit); Auth and Admin of
--   backend/middleware/auth.go and admin.go (Api/Guard).
-- - Session: backend/usecase/auth_login.go, auth_refresh.go, auth_logout.go and auth_session.go,
--   with user_validate.go in Session/Validate; Session/Accounts is auth_register.go, auth_me.go,
--   auth_seed.go and auth_helpers.go, Session/AutoLogout auto_logout.go, and Session/Access
--   ws_auth.go, the check of an access token in front of the socket; Session/Cleanup is the end of
--   auth_refresh.go.
-- - Admin: backend/usecase/admin.go and admin_lock.go; Admin/Exclusion sets the deletion of a
--   user against the check of an access token, Admin/Search has the lists and Admin/Csv the file.
-- - Ranking: backend/usecase/ranking.go.
-- - Retention: backend/usecase/log_retention.go.
-- - Socket: backend/websocket/hub.go (Socket/Hub) and handler.go (Socket/Handler). The state is
--   the hub beside the world; what a use case sent is delivered when it ends. The messages of
--   one connection come one after the other.
-- - Profile: backend/usecase/profile.go, over the pages of Repository/Pages.
-- - Worker: the ticks of backend/worker/auto_logout.go, secret_setup_timeout.go and
--   turn_timeout.go.
-- - Config: backend/config/env.go, with integers of 64 bits from Prelude/Int and what it uses of
--   Go's strings and strconv from Prelude/Texts.
-- - Backup: backend/usecase/backup.go and backend/repository/backup.go, with the status in
--   Backup/Status.
-- - Http: backend/router/router.go with the middleware in front of each route (Http/Router), the
--   handlers of backend/controller (Http/Controllers), their JSON in presenter.go
--   (Http/Presenter), and the pages and replies of backend/dto (Http/Request).
-- - Tests: examples in a database in memory.
--
-- How the code is read. A method of a use case is a function of the state that returns a result
-- and the new state. Each call of the database, Redis, the clock or the UUID generator has its
-- number, and `fails` tells for each number whether the call fails; so every error path of the
-- code is there. A row that the code changes in place is a new value. A UUID is a number with
-- `uuid.Nil` as 0, a text the list of its bytes, a time its nanoseconds; Go's integers are used
-- far below their bounds here and are natural numbers, but for those of the configuration, of the end
-- of an access token and of the offset of a page, which have 64 bits. A use case is split at the commit of its
-- transaction: `commit_guess` is SubmitGuess up to the commit and `submit_guess` the whole.
--
-- What is a parameter: GORM's First, Find, Create, Save, Updates and Delete on each table, the
-- rollback of a transaction, the Redis commands, the clock, UUIDs, HMAC-SHA256 and crypto/rand;
-- for a session the interfaces of passwords, access tokens and refresh tokens; sort.Slice for the
-- ranking, and the context for a purge; for tokens the libraries of JWT, SHA-256 and bcrypt; ILIKE,
-- DISTINCT, SCAN and an upsert of the databases; the text of JSON and of times; and what Echo reads
-- of a request.
-- What is assumed of them stands in named hypotheses: `RollsBack`, `KeyedGames`, `KeyedUsers`,
-- `FindsCreated`, `KeepsRankings` and `DeletesSome` of the database, `Accepts` of tables that
-- take a row whose keys are new and whose texts fit, `Answers` where no call fails, `Works` of the interfaces of a session,
-- `SortsSlice` of sort.Slice on a comparison that is a strict weak order, `FindsOnly` of the primary
-- database, `Documented` and `RefusesLong` of the libraries of tokens and passwords, `NoCollision` of the keyed hash and `InRange` of the random numbers.
-- A transaction runs alone, as the row locks of FOR UPDATE are not modelled.
--
-- Loops are structural recursion. `decimal` prints a number with one unit of fuel more than the
-- number, which is enough since each division by ten makes it smaller; the loops of the four
-- positions are written out, and the shuffle has its four rounds. The batches of a purge run on
-- fuel: each deletes a row or is the last, so more fuel than there are old rows is enough.
--
-- Not modelled: the text of JSON, the upgrade of a request to a socket, the log of all requests,
-- the headers of CORS and the recovery from a panic in backend/middleware, the start of the server,
-- the opening and migration of the databases, the tickers and schedules of backend/worker, and the
-- browser's side in frontend/. These call libraries and have no rule of the game in them.
pub mod Prelude
pub mod Model
pub mod World
pub mod Repository
pub mod RedisStore
pub mod Crypto
pub mod Game
pub mod Matching
pub mod Api
pub mod Session
pub mod Admin
pub mod Ranking
pub mod Retention
pub mod Socket
pub mod Worker
pub mod Profile
pub mod Config
pub mod Backup
pub mod Http
pub mod Tests
