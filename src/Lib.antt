-- ===== src/Lib.antt =====
-- go-user-system: a verification library for the accounts, sessions, roles and settings of the
-- service.
--
-- The program is an HTTP service. Handlers call three services (internal/service); these run
-- statements of internal/dao and internal/repository on MySQL through gorm, in transactions where
-- several belong together; they keep revoked access tokens and failed logins in a store of
-- internal/authstate; and tokens are made and read by internal/auth. The library models these
-- layers from the statements up to the services, the middleware that admits a request, the renewal
-- of a session, and the check of the settings.
--
-- Files and what they model:
--   Common           numbers, times, texts, lists and dictionaries: what the source uses of Go's
--                    standard library. Integers are ℤ, times and durations are nanoseconds; a
--                    counter wraps at 64 bits, and a difference of times is cut off at the bounds
--                    of a duration.
--   Errors           internal/apperror/app_error.go, internal/response/code.go,
--                    internal/service/errors.go: errors with their chain of causes, and the
--                    numbers of response codes.
--   Model            internal/model: the rows of the tables.
--   Result           a pair of a value and an error, and calls that read and change a state.
--   Database         the interface to gorm and MySQL. `Schema` gives each statement its meaning on
--                    tables; a statement has that meaning or fails with an error of the library and
--                    changes nothing; a transaction is undone when its function fails. `Reference`
--                    is an instance of the interface.
--   Dao              internal/dao/user.go: the statements on users.
--   Repository       internal/repository/refresh_token.go; `Rbac` is internal/repository/rbac.go.
--   AuthState        internal/authstate/memory.go and store.go: `MemoryStore` with each of its
--                    methods. `Interface` is the interface Store, with the law that its clients
--                    rely on and the proof that the memory store meets it; `Redis` is
--                    internal/authstate/redis.go, a second instance.
--   Token            internal/auth/token_manager.go: generateToken, parseToken and what calls them.
--   Service          `Auth` and `Access` are internal/service/auth.go (refresh tokens; access
--                    tokens and limits of logins), `User` is internal/service/user.go, `Rbac` is
--                    internal/service/rbac.go, `Bootstrap` is internal/service/bootstrap.go.
--                    `Promise` says what it is that a call keeps a promise, and `Endings` joins
--                    the services of accounts and of sessions.
--   Middleware       internal/middleware/auth_middleware.go, permission_middleware.go, and the
--                    answer to an error in internal/handler/error_handler.go. `guarded` is a route
--                    behind both, as router/router.go stacks them.
--   Handler          internal/handler/user_handler.go: RefreshTokenHandler, with the cookie.
--                    `Login` is LoginHandler with the limit of failed logins, with `Traffic` for
--                    the steps of requests that are served at the same time; `Logout` is
--                    LogoutHandler, `Account` has the handlers of accounts, `Roles` is
--                    internal/handler/rbac_handler.go, and `Health` is the readiness in
--                    internal/handler/health_handler.go.
--   Router           router/router.go: the routes behind the middleware, with their handlers.
--   Config           config/config.go: the settings and `Validate`; `Defaults` is applyDefaults,
--                    `Environment` is applyEnvOverrides, `Variables` says what each variable does,
--                    `Search` is the search for a file, and `Load` is Load and LoadEnv, which join
--                    them.
--
-- How definitions correspond to the code: an operation has the name of the Go function in snake
-- case, and a helper of it has the lines between two of its returns. A function that returns an
-- error is an `Action`, from a state to a result and a state. `return nil, err` is `raise`, `if bad
-- { return err }` is `raise_if`, and an error that is wrapped on its way is `on_error`. A reading
-- of the clock and a fresh identifier are arguments, since they come from outside. A receiver that
-- may be nil is a Boolean `initialized`. A method that holds a mutex, and a transaction that holds
-- the locks on its rows, is one step; calls in between are lists of calls in any order, and the
-- steps of logins that are served at the same time are a relation on states.
--
-- Parameters, with the behaviour that is relied on as laws: the database (Database.Database), the
-- store (AuthState.Interface.Store), package jwt (Token.Jwt), and Redis through go-redis
-- (AuthState.Redis.Redis). Every law of them is met by an instance that the tests run. Package
-- bcrypt (Service.User.Bcrypt), SHA-256 in hexadecimal digits, the mapping to lower case,
-- net.ParseIP and net.ParseCIDR, packages yaml and godotenv, the file system and the environment
-- are parameters of which no law is assumed.
--
-- Loops over lists are structural recursion. The loop of findFileUpwardFrom has fuel, one turn more
-- than the path of its directory has names, which is enough since each turn drops a name.
--
-- Not modelled: the handlers that answer with constants and build data, the middleware that logs,
-- recovers and sets identifiers and timeouts, and the paths of the routes; metrics, connections,
-- migrations and the start of the process, which are input and output. The comparison of a dummy
-- hash in `Login` has no effect but time. The texts of errors that are only logged are left out.
pub mod Common
pub mod Errors
pub mod AuthState
pub mod Model
pub mod Result
pub mod Database
pub mod Dao
pub mod Repository
pub mod Config
pub mod Token
pub mod Service
pub mod Middleware
pub mod Handler
pub mod Router
