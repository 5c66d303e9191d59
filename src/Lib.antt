-- ===== src/Lib.antt =====
-- A model of the ride-booking backend (src/ of the repository, NestJS services over Postgres and
-- Redis), and what it guarantees.
--
-- The parts, and how they work together:
--   Platform, Platform/Keys: what the program takes from outside, as one parameter: the Postgres
--     tables of drizzle-orm and the Redis server of ioredis with its geo index, with the documented
--     behaviour that the code relies on as laws, and the cells of h3-js.
--   Schema/Enums, Schema/Rows: the columns and enums of src/common/database/schema.
--   World: the state of the whole backend, and the actions of a service: a state and exception monad
--     in which the writes before an exception stay, except in db.transaction. The database does not
--     fail; Redis and the queues can be down, which is part of the state.
--   Rides/StateMachine: src/modules/rides/state-machine. StateMachine/Graph has the diagram as a
--     relation.
--   Rides/Service, Rides/Lifecycle: createRide, transition, driverArrive, driverStart, completeRide
--     and cancel of src/modules/rides/services/rides.service.ts, the rating of a ride of its controller,
--     and the driver's actions of src/modules/matching/controllers. Lifecycle/History, Calls,
--     Transition and Outcomes are about them.
--   Rides/Request, Rides/Fraud, Rides/Scheduled: requestRide, fraud.service.ts and
--     scheduled-rides.service.ts. Rides/Booking is about the first.
--   Matching/Service: src/modules/matching/services/matching.service.ts. A match sends offers, waits for a
--     claim in Redis, and makes the ride ACCEPTED through the transitions of the rides; a driver's
--     response does so too. Matching/Claim, Assignment and Late are about the claim, the final match, and a
--     driver who accepts too late.
--   Drivers/Service, Drivers/Matchable: src/modules/drivers/services/drivers.service.ts with
--     src/common/redis/geo.service.ts.
--   Pricing/Fare, Pricing/Surge, Pricing/Quote: src/modules/pricing/services. Quote/Laws is about what a
--     quote offers.
--   Promos/Service: src/modules/promos/services/promos.service.ts. Promos/Usage is about its counter, and
--     Promos/Race about interleavings of concurrent redemptions.
--   Payments/Service, Payments/Settlement: src/modules/payments/services. Payments/Laws and
--     Payments/Settlement/Ledger are about them.
--   Outbox/Relay: the relay of src/common/events/outbox.service.ts; its write is in Rides/Service.
--     Outbox/Delivery is about the relay. Outbox/Worker is the loop of
--     src/common/events/outbox-relay.worker.ts; Round, Weight, Unique and Drain are about its end, and
--     Claimed and Delivered about what it delivers.
--   Auth/Otp, Auth/Token, Auth/Service: src/modules/auth/services. Otp/Guesses, Accepted and Resend
--     are about guesses and cooldowns. Token/Phases forgets the rows of the refresh tokens and keeps
--     what each hash is; Token/Machine is the abstract machine on that, and Token/Rows, Exchange,
--     Refinement and Sessions show that the service is one. Token/Reuse is about the second use of a
--     token, Service/Login about who is logged in.
--   Users/Service, Users/Laws: src/modules/users/services/users.service.ts.
--   Ratings/Service, Ratings/Laws: src/modules/ratings/services/ratings.service.ts.
--   Drivers/Registration: register of the drivers service.
--   Tracking/Gateway: src/modules/tracking/gateways/tracking.gateway.ts, with the stream of positions in
--     Gateway/Stream.
--   Http/Guards, Http/Idempotency: the guards of src/common/auth and src/modules/rides/guards, and
--     src/common/interceptors/idempotency.interceptor.ts.
--   Tracking/Connection: the handshake and the end of a socket in the same gateway. Tracking/Reconnect is
--     about them.
--   Tracking/Polling: src/modules/tracking/services/tracking.service.ts, over the maps; Polling/Laws is
--     about it.
--   Maps/Api, Maps/Service: src/modules/maps/services/maps.service.ts. Api has what Google and OSRM answer,
--     and the texts of the cache; Maps/Cache is about the cache.
--   Analytics/Service: src/modules/analytics/services/analytics.service.ts. Analytics/Days and Totals are
--     about its days and totals, Analytics/Routes about the routes that it shows.
--   Notifications/Service, Notifications/Worker: src/modules/notifications/services.
--     Notifications/Providers: src/modules/notifications/providers and src/common/sms, as requests that are
--     logged in the order in which they are made; Notifications/Http has these and their answers.
--     Notifications/Laws and Dispatch are about the worker, RideState about the messages for a ride.
--   Rides/Lists, Rides/Controller: the lists of rides.service.ts, and the routes of
--     src/modules/rides/controllers with the shapes of their answers in src/modules/rides/dto.
--   Drivers/Location: the route of src/modules/drivers/controllers that pushes a position.
--   System: the steps of the whole backend that write a ride, and every sequence of them.
--     System/Matching and System/Payments have its lemmas on these two.
--   World/Inversion: what the success of a chain of actions says of its first step.
--   Base: the shared names, lists over the native numbers, signed integers, tables in the order of their
--     first keys (Base/Dict), sorting (Base/Sort), and the doubles of JavaScript (Base/Double).
--   Tests: the theorems at concrete inputs, over a platform that runs.
--
-- Numbers: identifiers (uuids) are numbers, times are milliseconds, amounts are paise, multipliers and
-- kilometres in a row are hundredths, routes are metres and seconds, coordinates are millionths of a
-- degree. Fares, surge multipliers, promo discounts, the ETA of a quote and the texts of toFixed are
-- computed in doubles as in the source, on the multiples of 2 ^ -1074 of Base/Double. What else the
-- source does in doubles, the ratios of the analytics, commissions, averages of ratings and the
-- plausibility of positions, is exact here and rounded where the source rounds it. The clock stands
-- still during one action; between the calls of a session it moves.
--
-- Loops are over lists, so they need no fuel: the polling for a claim is over the list of its pauses,
-- in each of which the rest of the system may do anything. The loop of the relay worker takes fuel: each
-- run that claims an event makes the events lighter, so that their weight is enough.
--
-- Parameters: SHA-256, the signature and the verification of a JWT, haversine, the route of a quote,
-- the Razorpay client, the Kafka producer, what Google, OSRM and the providers of messages answer, the
-- signature for Google, and JSON texts of cached values. Random codes and tokens are arguments. Of
-- socket.io the model takes it that server.sockets.sockets is the map of the connected sockets, as the
-- type Server of the gateway's field says.
--
-- Not modelled: the routing of requests and the validation of DTOs, configuration from the environment,
-- the reading of the service account file, the text of a message with a one-time password, health probes,
-- migrations and seed data, the locks that partition the outbox between instances, and failures of the
-- database.
pub mod Auth
pub mod Base
pub mod Schema
pub mod Platform
pub mod World
pub mod Maps
pub mod Users
pub mod Http
pub mod Tracking
pub mod Ratings
pub mod Pricing
pub mod Drivers
pub mod Promos
pub mod Rides
pub mod Matching
pub mod Payments
pub mod Outbox
pub mod Analytics
pub mod Notifications
pub mod System
mod Tests
