-- ===== src/Lib.antt =====
-- The core of the service library: a service with its lifecycle, the links and branches of its streams,
-- its storages, its pools, its encodings, and how its data sources admit and schedule work.
--
-- A service is a graph of streams. Streams hand their work to pools, which run it on executors, and
-- joins keep the values that wait for a partner in a storage, which expires them. A rotating map keeps
-- other keyed state. All of it is shared by many coroutines: what one of them does under a mutex, or
-- in one compare-and-exchange, is one function of the model, from a state to a state and an answer,
-- and a run is a list of such sections in any order.
--
-- Files and code (below include/servicelib/runtime, where no other tree is named):
--   Prelude, Dict    Boolean tests, lists with native lengths, integers; keys with a hash and an
--                    equality, and the unordered maps as association lists with the operations that
--                    the code calls (find, contains, emplace, erase, operator[], merge)
--   Store            store/storage.hpp: the errors and the states that the storages share
--   Store/Rotating   store/rotatingmap.hpp: RotatingMap. A map is 64 shards of two generations with a
--                    high-water mark: set is `put`, getOrCreate, get, pop and size keep their names,
--                    rotateShard is `rotate_shard`; the timer rotates one shard after another, so that
--                    `rotate_at` is a step of its own. stop is `begin_stop` and, for the caller that
--                    owns it, `finish_stop`. Generations, Refinement, Size and Lifecycle prove.
--   Store/HashJoin   store/hashmap.hpp and store/joinstore.hpp: HashMapJoinStorage. Items live in a
--                    list and are named by their place, as the code shares them by pointer; a timer
--                    names its item and its generation. Items has removeIfSame, armExpiryLocked, the
--                    stop callback, scheduleExpiryNow, expire and rotate; Join has joinValue: `work` is
--                    one turn of its loop, `join_loop` the loop, `join_value` the call with its
--                    OperationGuard. `log` records each run of a callback. Frame, Invariant, Maps,
--                    Sections, Turns, Spared, Runs and Loop prove; Schedule has the sections of any number
--                    of threads, in any order: a lookup reads only, `publishes` is the section under
--                    `mu_`, `enters_made` and `enters_found` are those under an item's lock, which its
--                    maker holds since before it publishes the item.
--   Pool             pool/taskpool.hpp and pool/pool.hpp: the lifecycle (start, stop, the manager) in
--                    its sections; Executors has the slots (reconcileExecutors, shouldExitAsExcess,
--                    ExecutorSlotGuard), DeadlineHeap the indexed binary heap of deadlines, TaskPool
--                    the doubly linked queue and its promotions, Admission addTask and executorLoop.
--                    Steps, Links, Fifo, Requeue, Promotion and Admitted prove.
--   Pool/Priority*   pool/prioritytaskpool.hpp: PriorityHeap has comesBefore and the heap, PriorityPool
--                    the queue part of addTask, expediteLocked, promoteExpiredDeadlinesLocked, expedite
--                    and the take of executorLoop. Priorities count from the least int. The lifecycle,
--                    the slots and the heap of deadlines are those of the task pool, line for line.
--                    In PriorityHeap, Contents, Order, Up, Down and Index prove, in PriorityPool, Order
--                    and Served.
--   Pool/DelayPool   pool/delaypool.hpp: DelayPoolImpl. A task is a number, and each function is what a
--                    thread does under `mu` or with the atomics of a task: delay (`admit_now` and
--                    `admit_later` under the lock), the stop callback as `request_cancel`,
--                    drainCancellations as `take_inbox` and `drain_one`, schedulerLoop as `pick`,
--                    `dispatch_ready` and `scheduler_exit`, execute and its guard as `execute` and
--                    `retire`, stop as `begin_stop`, `stop_scheduler` and `finish_stop`, all of them
--                    from drainCancellations on in Scheduler. Timers, Invariant, Sections and Runs
--                    prove.
--   Serde            serde/serde.hpp and serde/serdeimpl.hpp: the writers and the reader of bytes keep
--                    their names (`read_word` is read_u8 to read_u64_be); Scalars, Sequences and Maps
--                    have the serdes, Defaults what MakeDefaultSerde chooses. Words, Laws, Order,
--                    SequenceLaws, ArrayLaws, Truncation, Maps/Laws and Defaults/Laws prove.
--   DataSource       below include/servicelib: RequestAdmission (datasource/detail), LocalInterval with
--                    ParseLocalInterval (datasource/cron), CronExpression, which is ToLibcronExpression,
--                    and CronEndpoint, which is Endpoint::Impl with the start and the stop of LibcronDataSource in src/datasource/cron/libcron.cpp.
--                    Drain, Grid, Parse, Invariant and Overlap prove.
--   Config/Runtime   config/config.hpp and config/link_types.hpp: RuntimeConfig, its constructor as
--                    `make_runtime_config` with InsertUnique and Validate, and its getters. Lookups,
--                    Consistency and Made prove.
--   Config/Loader    config/loader.hpp: Load, PollOnce, HasOverrideChanged and RecordWatchedMtime of
--                    ConfigLoader keep their names. Reload proves.
--   Service          serviceapp.hpp: Lifecycle is ServiceLifecycle (add, startImpl, stopPhase, stopStarted,
--                    stopBeforeGraphDrain and stopAfterGraphDrain keep their names), App is ServiceApp
--                    with its pools (ensureConfiguredPools, the registrations, start and stop). Runtime is
--                    the part of environment.hpp that a drain waits for: the counts of invocations and of
--                    the tasks of parallel. Log tells what the components see; Phases, Invariant,
--                    Stopping, Starting, Runs, Completion and Rollback prove of the lifecycle, Registry,
--                    Release, Ensured and Before of the service, Quiet of the drain.
--   Stream           Caller is makeCallerFromEnv of caller.hpp with the four callers, and prepareCaller of
--                    environment.hpp. Below operators/: Branches is dispatchBranches of split.inl and
--                    whenIndex, dispatchBranch and consume of case.inl; SubStream is SubStreamCall of
--                    substream.inl in its sections; Join is the callbacks that join.inl and multijoin.inl
--                    give to joinValue. Laws and Once prove.
--   Tests            concrete inputs, and each theorem at one of them
--
-- Numbers: bytes are numbers below 256, and a size has 64 bits; a float is its bits. Times are
-- points on one clock in ticks, natural numbers; a duration or a TTL is an integer, and
-- saturatedAdd stops at `time_max`. Counters of 64 bits (generations, counts) are natural numbers:
-- they go up by one per call.
-- Loops: the loop of joinValue takes one `Round` (clock readings, outcomes of spawns) per turn, and
-- two rounds are proved to be enough for a call that nothing disturbs. The rotation of the map is
-- recursion on the list of its shards. The heap is sifted with its size as fuel: each turn goes to
-- the parent or to a child. A case descends with the number of its branches as fuel, which each turn
-- lowers. promoteExpiredDeadlinesLocked takes a task out of the heap in each
-- turn, so the size of the heap is its fuel.
-- Parameters: what the start and the stop of each component do, and what a wait for a stop finds;
-- whether the graph starts and drains, for the service; the pools of the environment, for the callers;
-- the number of ticks of the clock in a millisecond; what libcron takes as an
-- expression; what the files of the configuration give, through userver and generated code; what
-- the vector of bytes answers for max_size; the hash and the equality of keys with their laws, the
-- callbacks of joins and the factories of values, the clock, and whether the engine can spawn a
-- task.
-- Not modelled: metrics, logs and tracing, which no decision reads; memory (reserve and shrink of
-- buckets, allocation failures except those that the code handles); the wait of stop for its
-- executors, whose time out is only logged; the wrappers of serdes for type-erased values and the
-- operators that pass calls on (filter, map, flatmap, key by, merge, process, delay, sink, input and
-- links); the construction and the printers of the topology; a caller of a lifecycle or a service
-- whose context ends before it gets its gate, which changes nothing; the parsers of the
-- configuration, the adapters of HTTP, gRPC and Kafka in the data sources and sinks, and the
-- schedules of libcron.
pub mod Prelude
pub mod Dict
pub mod Store
pub mod Pool
pub mod Serde
pub mod DataSource
pub mod Config
pub mod Service
pub mod Stream
mod Tests
