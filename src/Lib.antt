-- ===== src/Lib.antt =====
-- A verification library for proxy2api, a gateway between clients of the OpenAI interface and a set of
-- providers with pools of keys.
--
-- The program. A client sends a request with its own key. The gateway (internal/gateway/server.go)
-- authenticates it against a snapshot of the store, applies routing rules, checks the balance and the
-- limits of the user, selects a provider and one of its keys, checks the limits of that key, forwards
-- the request with the key, and then bills the user and records the usage; failures make a key rest.
-- The store (internal/store/store.go) keeps all of it in a database through gorm, and the configuration
-- (internal/config/config.go) seeds it.
--
-- The files.
--   Base, Text, Dict, Float   shared helpers: native numbers and integers with the wrap-around of
--                             64 bits, lists, results, Go strings as bytes, maps, float64
--   Config                    the structs, `fillDefaults`, `validate`, `Load` of internal/config/config.go
--   Gateway.Types             the data of internal/gateway/types.go
--   Gateway.Limiter           `minuteLimiter` of internal/gateway/limiter.go
--   Gateway.Pick              `supportsModel`, `weightedProviderPick`
--   Gateway.Keys              `hasLiveKey`, `pickProviderKey`
--   Gateway.Health            `markProviderKeySuccess`, `markProviderKeyFailure`
--   Gateway.Schedule          `parseWeekdayMask`, `parseHHMM`, `scheduleMultiplier`
--   Gateway.Rules             `applyRules`, `evalRule`
--   Gateway.Select            `selectProviderAndKey`
--   Gateway.Snapshot          `reloadSnapshot`
--   Gateway.Auth              `authenticateUser`
--   Gateway.Forward           `forward` and what it calls
--   Gateway.Admit             the state of `Server`, and the tests of `handleProxy` before its changes
--   Gateway.Proxy             `handleProxy` and `incStat`, on that state
--   Gateway.RedisLimiter      `redisLimiter` of internal/gateway/redis_limiter.go, with its Lua script
--   Gateway.IpFilter          `withIPFilter` and what it calls, of internal/gateway/middleware.go
--   Gateway.Compat            `handleAnthropicCompat`, `handleGeminiCompat` of internal/gateway/server.go
--   Gateway.Models            `handleModels`
--   Gateway.Messages          the requests and replies of internal/gateway/admin.go
--   Gateway.Admin             the guards and the reading of bodies that its handlers share
--   Gateway.Admin.Access      keys, tokens, roles and signatures of administrators
--   Gateway.Admin.Catalog     the handlers for providers, keys, rules, schedules, import and export
--   Gateway.Admin.Ledger      the handlers for tenants, administrators, prices, top-ups and logs
--   Gateway.Admin.Routes      the paths of the administration, as `NewServer` registers them
--   Store.Gorm                gorm and the database behind it, as an interface with laws; a database of
--                             lists that meets the laws is in Store.Gorm.Listed, loops of statements
--                             are in Store.Gorm.Loops
--   Store.Rows, Store.Tables  the rows with their default values, and the tables
--   Store.Billing             top-ups, deductions and their list
--   Store.Prices              the price rules
--   Store.Tenants             the tenants
--   Store.Lists               the lists for a snapshot, the health of a key, the usage records
--   Store.Providers           the changes of providers and of their keys
--   Store.ApiKeys             the changes of the keys of users
--   Store.Routing             the changes of rules and schedules, the export and the import
--   Store.Admins, Store.Audit the administrators with their tokens, and the audit log
--   Store.Seed                `SeedFromConfig`, `buildConditionJS`
--
-- How the code is modelled. A Go function is a function by clauses with its guards in order. Functions
-- that change the store or the server take the state and give it back. An `int` or `int64` is an
-- integer whose sums and products wrap (`add64`, `mul64`); the database adds without a bound. Instants
-- and durations are nanoseconds. What the program does not decide is an argument: readings of the
-- clock, `rand.Intn`, the order of a loop over a map, and the answers of the network. A request is one
-- step: requests that run at the same time are not interleaved. All loops are over lists; only the
-- decimal digits of a number `n` have fuel, `n + 1`, which is enough since each step divides by ten.
--
-- What is a parameter. gorm and the database (Store.Gorm, with the documented effect of statements as
-- laws), Redis and the values of Lua (Gateway.RedisLimiter, likewise), the JavaScript engine, JSON and
-- YAML, the parsing of URLs, queries and addresses, SHA-256 and HMAC, random bytes, products and
-- conversions of float64.
--
-- What is not modelled. The connections to the database and to Redis; metrics and access log, which
-- only write; the pages /admin/stats and /admin/ui and /healthz, which only read; and the start of the
-- server.
mod Base
pub mod Text
pub mod Config
pub mod Dict
pub mod Float
pub mod Gateway
pub mod Store
