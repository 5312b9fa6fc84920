-- ===== src/Lib.antt =====
-- ReliaDL downloads a large file over several connections and mirrors, and survives interruptions.
-- This library models the parts of it that decide which bytes are fetched, by whom, and what is
-- trusted:
--   Models     reliadl/models.py: chunk specifications, chunk and session states. Children Status,
--              Chunk, Session; proofs in Laws.
--   Planner    reliadl/algorithms/adaptive_chunker.py, DynamicChunkPlanner: the cursor that cuts a file
--              into chunks whose size is asked of the BL-DCS controller. Cursor has the state and
--              the methods, Tiling what it is to partition a range of bytes, Steps one chunk, Drain and
--              Restore the loops, rewinding and persistence.
--   Scheduler  reliadl/scheduling.py, TransferScheduler, with _refill_queue and plan_chunks of
--              reliadl/download_engine.py: fixed sizes or adaptive batches, which the engine's
--              workers ask for when the queue is empty. Defs has the code.
--   Deque      reliadl/algorithms/task_deque.py, ChaseLevDeque: Ring and Ops have the code; the code's
--              power-of-two test is that of adaptive_chunker.py.
--   Stealing   reliadl/algorithms/work_stealer.py: Reports, Detector, Bisection and Coordinator have
--              the code, Halves, Slowness, Rounds, Epoch and Plans the proofs.
--   Merkle     reliadl/manifest.py, from hash_leaf to BinaryMerkleTree.verify_inclusion: Tree has the
--              code, Encoding the Python text and byte functions that it calls, Climb and Paths the proofs.
--   Stream     reliadl/manifest.py, SubBlockStreamValidator: Validator has the code, Blocks and Segments
--              the proofs.
--   Breaker    reliadl/algorithms/mirror_bandit.py, CircuitBreaker.
--   Writer     reliadl/sparse_writer.py, SparseFileWriter: System has the calls of the operating system
--              and their laws, Ops the code, Loop, Calls, Ranges and Reading the proofs about writes,
--              Allocation and Creation those about the constructor.
--   State      reliadl/state_manager.py, StateManager: Store and Inventory have the code, Loading, Saving
--              and Recovery the proofs about the state file, Reconciled and Settled those about the
--              part files.
--   Engine     reliadl/download_engine.py, DownloadEngine: Body, Fetch, Retry and Resume have the code,
--              Errors the retryable exceptions of reliadl/exceptions.py and the comparison of digests of
--              reliadl/hash_verifier.py. Writes, Blocks, Received, Finished and Fetched prove what one
--              request leaves, Workers several requests, Whole the whole file, Prefix, Causes, Retried, Attempts and
--              Liveness the retries, Reads, Demoted and Resumed the resume.
--   Prelude    shared names, tests on numbers, lists, integers, results, text, identifiers, sorting.
--   Tests      the theorems at concrete inputs.
-- The parts meet as they do in the program: the scheduler owns a planner and applies the concurrency
-- floor to what it issues; the engine appends the scheduler's batches to its session and queue; the
-- thief's half of a bisection becomes a chunk specification of Models. A request of the engine feeds
-- the validator of Stream and writes through Writer; a resume reads the chunks of Models back through
-- Writer, and a checkpoint saves them through State.
--
-- Correspondence. A class is a record of its fields, a method a function that returns the new record,
-- an exception a value of Prelude.Results; a ConfigurationError keeps the parameter that it names.
-- Type tests of dynamic arguments (isinstance) are left out, since arguments are typed. Python's
-- integers are naturals where the code has checked the sign, and ℤ of Prelude.Int where it has not.
-- Floating point numbers are the parameter Floats of Stealing.Numbers, the controller the parameter
-- Sizer of Planner.Cursor, SHA-256 a parameter, the breaker's clock readings arguments in ticks and
-- the product with its backoff multiplier a function. What other threads do inside a method of the deque,
-- between its reads and its compare-and-swap, is an argument of the method. Identifiers and digests
-- are lists of code points. The operating system is a record of calls with laws, a request to a
-- server an argument of the engine, JSON and UTF-8 functions with a law. A save of the state file
-- lists the disks on which a crash may leave it. A dictionary or a set of identifiers is a list.
-- Left out are the exceptions for a file of negative size, for text that has no UTF-8, for expected
-- digests that are not ASCII, and for a hash algorithm that the program does not support.
--
-- Loops. `while` loops run on fuel: plan_all has one round for each remaining byte and one more,
-- advance_to one for each byte of the file and one more, drain one for each task and one more, the
-- levels of a tree one for each leaf, write_at one for each byte of its data, the reads of a chunk one
-- for each of its bytes, the retries of a chunk one for each attempt allowed; each is shown to be
-- enough where a result below says that the call ends, the reads of a chunk in Engine.Reads. The other loops recurse on the list or number that bounds them.
--
-- Not modelled: the network, the asynchronous scheduling of workers, delays and progress reports, the
-- final rename and check of the output, the writer's branches for systems without positional calls, the
-- rate limiter, the bandit's weights, the controller's control law, metrics, manifest parsing and
-- signatures, cloud adapters, configuration, logging and the command line. They are calls of other
-- libraries, floating point arithmetic, or glue around the parts above.
pub mod Prelude
pub mod Models
pub mod Planner
pub mod Scheduler
pub mod Deque
pub mod Stealing
pub mod Merkle
pub mod Stream
pub mod Breaker
pub mod Writer
pub mod State
pub mod Engine
mod Tests
