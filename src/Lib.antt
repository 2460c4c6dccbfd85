-- ===== src/Lib.antt =====
-- Verification of push-dispatch, a Go service that sends push notifications to the devices of
-- users and runs scheduled ones.
--
-- The parts of the program and the files that model them:
-- - push/push.go: Push/Errors (ErrorCode, NewSendError, SendErrorCode) and Push/Types (targets,
--   messages, results, validateTarget).
-- - push/dispatcher.go: Push/Targets (deduplicateTargets, chunkTargets), Push/Retry (the
--   dispatcher's settings, retryBackoff, boundedRetryJitter), Push/Batch (sendBatch: its rounds,
--   its loop and its summary) and Push/Send (Send).
-- - push/notification_analytics.go and push/validation.go: Push/Payload (EnrichNotificationData,
--   ValidateMessage).
-- - push/installation.go: Push/Installation (Installation, ActiveAt, NewInstallation,
--   ValidateHeartbeat, PreserveRegistrationState).
-- - push/store/store.go, push/store/targets.go and push/targets.go: Push/Store, with Prune
--   (retire, prune, deleteStatusBlocked), Newest (NewestActiveInstallation), Documents (what is
--   stored), Callbacks (the callbacks of the transactions), Operations (the methods of the store
--   and UnregisteredInstallationRefs) and Laws (what is relied on of Firestore).
-- - push/fcm/sender.go: Push/Fcm (SendBatch, toMulticastMessage, classifyError).
-- - scheduler/schedule.go: Scheduler/Daily (Daily, its Validate and Next), Scheduler/Job (Job,
--   Key, messageForOccurrence) and Scheduler/Schedule (Schedule, its Validate, NewJob).
-- - scheduler/worker.go: Scheduler/Worker (deliver, retry) and Scheduler/Tick (Tick).
-- - scheduler/firestore/store.go: Scheduler/Store (Put, Get, Cancel, ClaimDue, Finish), with
--   what it relies on of Firestore in Scheduler/Store/Laws.
-- - api/devices.go and api/schedules.go: Api (wrap), Api/Devices and Api/Schedules (the
--   handlers).
-- - cmd/push-dispatch/main.go: Command (pathID, shardRange, run and its commands but serve).
-- The children of these files hold the proofs and are named for what they prove. Base has the
-- shared names: tests on numbers and texts, lists, Go's maps, instants and durations, sorting.
-- Tests runs the code at concrete inputs.
--
-- How the code becomes functions: an effect of the outside is an argument that takes a world `W`
-- and returns its answer with the next world. The provider, the waits and the random numbers of
-- the dispatcher are fields of `Dispatcher W`; the clock, the targets, the sender and the
-- schedule store are fields of `Services W` and `JobStore W`; the timezones of the package
-- `time` are a `Calendar`. A context is a part of the world. Where the theorems need something
-- of the outside, a hypothesis says it by name (AnswersOnce, DrawsBelow, IsArrivalOf,
-- IsFirestore, HashesFit).
--
-- The worker calls the dispatcher through its interface Sender, and the dispatcher calls the
-- provider's adapter through BatchSender. The worker finds its targets with ActiveTargets, and
-- the handlers of devices register, refresh and disable them, all through the store of
-- push/store. The batches of one `Send` run on several goroutines: each has a world of its own,
-- any at all, and the outcomes arrive in an order that is a parameter.
--
-- Fuel and bounds: `attempts` runs for the attempts that are left; `chunk_from` has a round for
-- each target, which is enough where the size is positive; `scan` has the 4320 minutes of its
-- window; `tick_loop` has a round for each job up to the limit; `for_shards` has a round for
-- each shard. Counters and attempts do not overflow an `int`, and instants are nanoseconds since
-- year 1.
--
-- Go maps are association lists with different keys. An iteration visits them in the order of the
-- list. The texts of errors that hold numbers are shortened.
--
-- The contract of the device store is Push/Store/Refined, where only who holds which target is left.
-- A transaction reads a `Snapshot` and returns the writes that it makes, or an error. Firestore
-- makes the writes of a callback all or not at all; other clients' transactions come before or
-- after. Both models of Firestore read an instant back as it was written, which is so of instants
-- of whole microseconds, to which Firestore rounds down.
--
-- Not modelled: the constructors of the stores and of the FCM adapter and the paths of
-- documents, which only pass arguments on; the command serve, and the flags and JSON of the
-- command, which are of Go's libraries; the example in examples; the client libraries in ios and
-- android.
pub mod Base
pub mod Push
pub mod Scheduler
pub mod Command
pub mod Api
pub mod Tests
