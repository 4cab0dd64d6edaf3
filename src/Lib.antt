-- ===== src/Lib.antt =====
-- umans-gate is a local proxy in front of a metered model API (TypeScript, run by Bun). It admits
-- requests, holds them back while the account's concurrency is used up, retries, and records each
-- request in a database that a dashboard shows. This library models the parts that decide who may
-- pass, what is sent on, and what becomes of a record, in plain terms: a class is a record of its
-- fields, a method is a function from the old state to the new one, a callback or a timer is a
-- step of its own, and the clock is an argument of each call. Amounts and times are natural
-- numbers.
--
-- Parts, files, and how they interact:
--   Base            shared helpers: Boolean tests (Base.Tests), lists over native numbers
--                   (Base.Lists), JavaScript objects as association lists (Base.Assoc), whole numbers
--                   and doubles as far as `Number.isFinite` and `Math.floor` read them (Base.Int).
--   Breaker         src/limiter/circuit-breaker.ts, class CircuitBreaker. `maybeHalfOpen` is asked by
--                   the gate before each permit; the proxy reports 429s and successes.
--   Gate            src/limiter/gate.ts and src/limiter/types.ts. Gate.State holds the fields of class
--                   Semaphore, Gate.Capacity its admission test (canGrant, capacity,
--                   effectiveReservations), Gate.Semaphore its operations, and Gate.Calls class
--                   ConcurrencyGate, which joins it with the breaker. A history is a list of `Call`s:
--                   calls of the interface, firing timers, aborted clients, reloaded settings.
--   Rate            src/rate.ts, class SlidingWindowRateLimiter, asked before the gate.
--   Admission       src/request-gate.ts, the local decision on the requests of the upstream window.
--   Auth            src/auth.ts, token comparison and the lockout of the dashboard.
--   Queue           src/queue.ts, class WriteQueue, through which response metadata reaches the store.
--                   A history is a list of `Event`s: updates, timers, answers of the store, shutdown.
--   Cooldowns       src/in-flight-cooldowns.ts, the live cooldowns shown with the captures.
--   Incidents       src/incidents.ts, who is to blame for an answer that is not 200.
--   Breakpoints     src/restamp-breakpoints.ts, where a request body carries its cache breakpoints.
--   Sse             src/usage/sse-parse.ts, both parsers of server-sent events: the buffer over the
--                   chunks (drain, feed, feed_all) and what is read of a block.
--   Usage           src/usage/extract.ts, helpers.ts and types.ts in src/usage: Usage.Anthropic and
--                   Usage.OpenAi hold the extractors, whose loops are steps on the variables of the
--                   source (Scan), Usage.Entry the entry point, which joins them with the parsers.
--   Json            parsed JSON, as the stamping reads it.
--   Stamp           src/stamp-pipeline.ts and what it calls: Stamp.Catalog is src/stamp-catalog.ts,
--                   Stamp.Thinking src/stamp-thinking.ts, Stamp.Reasoning src/stamp-reasoning.ts and
--                   src/stamp-temperature.ts, Stamp.TopK src/stamp-topk.ts, Stamp.Blocks src/stamp.ts
--                   and src/experiments/strip-omo-reminder.ts, Stamp.Rules the rules by model. A step
--                   is a function of the context and the body to the body and whether it changed;
--                   Stamp.Pipeline puts them in their order and runs the loop of src/proxy.ts.
--   History         src/usage-history/events.ts, class UsageEventDetector, over any store.
--   Descriptions    src/vision/cache.ts, class DescriptionCache, over any hasher, LRU cache and store.
--   Budget          src/usage/budget.ts, src/usage/pricing-tier.ts, src/usage/limits-schema.ts.
--   Sockets         src/ws.ts, class WsBroadcaster.
--   Images          src/vision/wrapper.ts and the count of src/vision/detect.ts: Images walks one
--                   content, Images.Bodies the messages of a body, with the cap on images.
-- Each part but Base and Json has a module Tests with runs at concrete inputs.
--
-- Bounds and fuel: the binary search of Rate.find_cut runs on fuel, the width of the range, which
-- Rate.Prune shows to be enough. `>>> 1` is taken on 32 bits, and a limit below 2^31 keeps the
-- number of entries in range. The loop of Sse.drain over the blocks of a buffer runs on one more
-- than its length, which Sse.Chunks shows to be enough. The digits of a number in Images run on
-- one more than the number. All other loops are structural.
--
-- Parameters: `share` of the gate stands for a floored quotient of doubles, on which nothing is
-- assumed. The store behind the queue is the Boolean that each answer carries. The detector of
-- History takes the store as two operations, on which nothing is assumed; Descriptions takes its
-- two tiers as their operations, of which Descriptions.Sound assumes that a reading adds nothing
-- and a writing adds what is written, and Descriptions.Faithful that no two images share a key.
-- Incidents takes `JSON.parse` and the reading of a property as parameters, on which nothing is
-- assumed; so do Sse and Usage with `JSON.parse` and the cast behind it. Counts of tokens are
-- natural numbers, a rate is the exact quotient before it is rounded, and texts are lists of
-- UTF-16 units. A data line of a stream is no primitive value, and the own type of an event is a
-- text or absent. The reservations that a new gate is given are whole permits. Of the extra body
-- of a rule the members `system` and `messages` are left out, and an array of messages is one or
-- absent.
--
-- Not modelled: statistics and their callbacks, logging, the wording of errors, the database, the
-- HTTP server, the proxy's forwarding, configuration files, the service installer, the updater,
-- the usage poller, the vision handoff but for its cache and the replacement of images, the
-- economics of the dashboard, and the dashboard itself. An attempt to resize the gate to a number
-- that is not finite is not modelled.
mod Base
pub mod Breaker
pub mod Rate
pub mod Gate
pub mod Admission
pub mod Auth
pub mod Queue
pub mod Breakpoints
pub mod Incidents
pub mod Cooldowns
pub mod Sse
pub mod Usage
pub mod Json
pub mod Stamp
pub mod History
pub mod Descriptions
pub mod Budget
pub mod Sockets
pub mod Images
