-- ===== src/Lib.antt =====
-- The railway booking system: what its services promise about seats, payments and failures.
--
-- inventory-service keeps the seats of every schedule. A seat is held for the whole journey, in the
-- status of its row, or for segments of the route, in rows of their own that the seat's row only sums
-- up. booking-service takes locks in Redis, asks inventory-service to lock and later to confirm seats,
-- and payment-service to take the money; payment-service learns of payments by webhook or by the
-- client's verification and publishes them as events. api-gateway stands before the services and stops
-- calling one that keeps failing.
--
-- Base: lists as tables (select, update_where, delete_where, count_where), tests on numbers, signed
-- integers, keys and sorting. Errors: the error classes of inventory-service/src/utils/error.js.
--
-- Inventory: inventory-service/src/services/inventory.service.js, inventory-service/src/utils/lockExpiry.js and
-- inventory-service/src/utils/retryTransaction.js. Rows has the tables; Transaction the transaction that
-- is rolled back when it fails; Aggregates recomputeSegmentSeatStatuses, recountScheduleAggregates and
-- recountAndPublish; Lock, Unlock, Confirm and Cancel the four seat operations, which share Selection;
-- Lifecycle initializeInventory and cancelScheduleInventory; Query getAvailability and getSeats; Expiry
-- cleanExpiredLocks; Retry retryTransaction. Transactions are taken one after another, each as one
-- function of the tables; how two of them on other rows of one schedule might interleave is not modelled,
-- and the outcomes of attempts that meet another transaction are arguments of the retry. The statements
-- of cleanExpiredLocks stand in no transaction, so what others commit between two of them is an argument.
-- Invariant and its children, Reachable, Activity, Summary, RoundTrip, Granting, Expiring, Lasting,
-- Delivery and Retrying hold the proofs.
--
-- Payment: payment-service/src/services/payment.service.js. Rows has the tables and the gateway, Orders
-- withIdempotency and createPaymentOrder, Capture handleWebhook and verifyAndCapturePayment, Refunds
-- initiateRefund. Handlers write as they go, in the monad of Effects: a failure keeps what was written.
-- Invariant, Reachable and Replay hold the proofs.
--
-- Booking: booking-service/src/services/booking.service.js and saga.service.js, inventoryClient.js and
-- paymentClient.js beside them, and booking-service/src/utils/bookingExpiry.js. Rows has the tables, the
-- calls to the other services and casUpdateBooking, Checks the validation and the seats, Create
-- createBooking, Saga the steps of the saga and their compensation, Events handlePaymentSuccess,
-- handlePaymentFailure, handleScheduleCancelled and cleanExpiredBookings, Reads getBooking,
-- getUserBookings and verifyPayment, Clients withRetry. A call stands for all attempts of the client, and
-- what it is answered is an argument. Listing has proofs on the pages, Compensation on the calls that are
-- sent, Frames, Payments, Picked and Outcome on what createBooking leaves behind, Replay on the
-- idempotency records; Interleaving takes the writes of the handlers apart, since several processes may
-- have read one row.
--
-- Breaker: api-gateway/src/services/circuitBreaker.js; a request is admitted and later succeeds or
-- fails, so that requests may overlap. SeatLocks: booking-service/src/utils/distributedLock.js, with the
-- two Lua scripts over a store of keys with expiry times.
--
-- RateLimit: api-gateway/src/middlewares/rateLimiting.middleware.js, the sliding window, with the four
-- middlewares in Middlewares; Kept, Window and Failing hold the proofs. Gateway:
-- api-gateway/src/services/proxy.js, with auth.middleware.js and error.middleware.js of
-- api-gateway/src/middlewares, the way of a request of a known user through the gateway; Identity
-- holds the proofs.
--
-- Users: user-service/src/services/auth.service.js and user.service.js, with user-service/src/utils/otp.js
-- and auth.js. Rows has the tables and the keys in Redis, Otp the one-time passwords, Auth the accounts, the
-- tokens and the profile; Guesses, Rotation, SignUp and Google hold the proofs.
--
-- Admin: admin-service/src/services. Rows has the tables and the events, Trains, Stations, Schedules and
-- Search the four services; Numbering, Way and Direction hold the proofs on routes and on the search.
--
-- Scheduling composes Admin and Inventory: the event that createSchedule publishes, what initializeInventory
-- reads of it, and what it makes of its tables, for which Inventory/Filling has the lemmas.
--
-- Bus: shared/utils/streamBus.js and shared/constants/streams.js, the consumer group of one stream, whose
-- handlers are functions of Inventory and Booking; Delivery and Poison hold the proofs. Consumers has
-- these handlers: inventory-service/src/events/consumer/inventory.consumer.js and
-- booking-service/src/events/consumer/booking.consumer.js.
--
-- Ids, names and keys are numbers that are only compared, a uuid is the next number that was not given
-- out, and 0 stands for a missing argument where the code tests one. Amounts are natural numbers of the
-- smallest unit of the currency; the counters of a schedule are signed, as in the database. There is no
-- fuel but the three attempts of a retry: every other loop runs over a list.
--
-- Not modelled: the calls over HTTP, the Razorpay package, hashing and tokens, mail, the table of routes
-- and the controllers, which read requests and write answers, logging, timers, and the user interface.
-- What these answer is an argument where the code above uses it.
pub mod Base
pub mod Errors
pub mod Effects
pub mod Inventory
pub mod Payment
pub mod RateLimit
pub mod Booking
pub mod Breaker
pub mod Gateway
pub mod Bus
pub mod SeatLocks
pub mod Consumers
pub mod Scheduling
pub mod Admin
pub mod Users
