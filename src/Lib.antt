-- ===== src/Lib.antt =====
-- The application core of the live-chat moderator: its economy, its store, its moderation
-- decisions, and the guards around its calls of YouTube.
--
-- Parts, and the files that model them:
--   Common      what the parts share: Boolean tests, Python's whole numbers (ℤ), dictionaries with
--               text keys (Dict) and with pairs of texts (Pairs), `str` of a number and f-strings
--               (Text, Join), a reader of numbers (Numerals), `str.strip` (Strip), `str.split` (Split),
--               searches in texts (Search).
--   Economy     app/economy/ledger.py (`EconomyService`) over the tables of
--               app/db/models/economy.py and app/db/repositories/economy_repo.py. Tables has the
--               rows and the repository, Service the methods, Audit the invariant of the books,
--               Rows, Create, Moves and Settle its preservation, Book the balances as a function
--               that the methods refine, Runs sequences of calls, Replay repeated calls.
--   Engagement  the rows of app/db/models/viewer_engagement.py and `EngagementRepository`
--               (Profiles), and app/engagement/xp.py: Levels has the levels, Farming the guard,
--               Messages the processing of a message; Daily and Pace follow what the guard keeps,
--               Awards what it lets through, Totals what the profiles show.
--   Games       app/games/engine.py (Engine) over app/db/models/mini_game.py and
--               app/db/repositories/game_repo.py (Tables, Rows). A win is paid by `earn` of Economy
--               and enters the profile of Engagement; Rounds follows the games through calls,
--               Completed is about the row of a game that is won, Winners about all that a win does.
--   Store       app/store/service.py over app/db/models/store.py and
--               app/db/repositories/store_repo.py. A purchase is paid by `spend` of Economy, and
--               enters the profile of Engagement. Items has the repository, Service the methods,
--               Rows the laws of the tables, Purchase what a purchase does, Outcome what its
--               client sees, Books the economy's invariant.
--   Quota       app/youtube/quota.py (Manager) and app/youtube/quota_registry.py (Registry); Events
--               has sequences of calls, Budget the daily limit, Charges single calls.
--   KeyPool     app/youtube/key_pool.py: Pool has the operations, Choice the selection of a key,
--               Cooldowns how long an error keeps a key out.
--   Resilience  app/utils/circuit_breaker.py (Breaker, Trips) and app/utils/retry.py (Retry).
--   Moderation  app/moderation/models.py, policy.py, trust.py and spam.py, and
--               app/db/repositories/trust_repo.py: Policy, Trust, Profiles and Spam have the code,
--               Order compares decisions, Scores follows the trust scores, Floods the spam checks.
--   Review      app/moderation/hitl/service.py (Service) and app/moderation/actions.py (Actions) over
--               app/db/models/moderation_review.py and app/db/repositories/review_repo.py (Tickets);
--               Resolution follows the tickets through any events.
--   Streams     app/db/models/stream_session.py: the rows (Sessions), the statuses (Transitions) and
--               which of them can follow each other (Reach).
--   Cache       app/cache/redis.py (Redis), cache.py (Values), rate_limiter.py (RateLimiter), locks.py
--               (Locks), and app/youtube/chat/dedupe.py and app/youtube/websub/dedupe.py (Dedupe). View
--               says what a key holds at a time, Windows counts the checks of a window.
--   Integrity   app/services/integrity.py (Audits) on the tables of Economy, Store and Streams;
--               Reports says what the audits find.
--   Flags       app/services/feature_flags.py and app/db/models/feature_flag.py (Service); Cascade
--               compares the answers before and after a write.
--   Events      app/events/bus.py (Bus); Delivery says who gets an event.
--   Flights     app/ai/coalescer.py: Coalescer has the steps of a call, Single the interleavings.
--   Commands    app/core/rbac.py (Roles), app/commands/engine.py (Engine) and
--               app/db/repositories/command_repo.py (Table); Cooldowns is about the dispatch.
--
-- How the code is modelled:
--   * A method that writes the database takes the tables and returns its answer with the new
--     tables; a table is a list of rows, and a query by key is the first row with the key. The
--     methods have the names of the code, and the arguments in its order, the state last.
--   * The texts of `uuid.uuid4` are a sequence that the state carries; theorems that need it assume
--     that the sequence does not repeat. The time is an argument, a number of microseconds.
--   * Python's whole numbers are ℤ, or ℕ where the code cannot make them negative. Scores between
--     0 and 1 are numbers of hundredths. Ratios of whole numbers are compared by products.
--   * `str.lower`, `str.upper`, `str.replace`, `str.isalpha`, `str.isupper`, the text of a UUID,
--     Python's `int` of a text and the JSON module are parameters. So are the handlers of the chat
--     commands and the guard of their output. Random draws are arguments.
--   * Errors that the code raises are values of the answer.
--   * The cache is the in-memory Redis of the application: a dictionary with the times at which its
--     keys expire. It never gives up control, so that a lock is read and deleted in one step. A lock that waits is given the times of its rounds.
--   * The coalescer's calls are steps between their waits, in any interleaving.
--   * Messages, games and commands are handled one after the other, in sequences of calls; where an
--     order of the clock is needed it is a hypothesis on the times in the sequence.
--   * Loops are recursion on the list. Three have a bound: `decimal` prints with as many rounds as
--     the number's successor; `retry` has fuel, of which one more than `max_retries` is proved enough;
--     the loop over levels has 1000 rounds, and leaves at level 1000 before they are used up. What a
--     level costs is a power of floats in the code, and a parameter.
--
-- Not modelled: the ordered queries (listings and leaderboards), logging, metrics and percentages
-- printed as floats, the width of database columns, concurrent sessions and row locks, the random
-- jitter of delays, and the parts that are mainly input and output (app/api, app/discord,
-- app/workers, app/persona, the network clients of app/youtube and app/ai, dashboard, alembic).
-- The Redis counter of a day is a number for each day; its expiry after 48 hours is not modelled.
pub mod Common
pub mod Commands
pub mod Events
pub mod Flights
pub mod Economy
pub mod Engagement
pub mod Games
pub mod Flags
pub mod Integrity
pub mod Store
pub mod Quota
pub mod Moderation
pub mod KeyPool
pub mod Review
pub mod Streams
pub mod Cache
pub mod Resilience
