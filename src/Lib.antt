-- ===== src/Lib.antt =====
-- mblue: the middleware of a message-driven embedded system. Tasks own segments; a segment sends
-- messages to the system bus, which forwards signals to subscribers and remote calls to the segment
-- that serves them, and takes the returns back. Messages come from a pool and wait in the queue of a
-- task; a task waits for events in an event queue, some of them timed.
--
-- The parts, by file:
-- - Errcode: middleware/common/mblue_errcode.h.
-- - SmartData: the tagged words of middleware/common/mblue_macro.h.
-- - Message: middleware/components/message. Code is the code word, Sequence is
--   `mblue_message_get_sequence`, Pool is `mblue_message_alloc` and `mblue_message_release` with the
--   free list; Pool/Conservation follows the messages that clients hold. Numbers is message_def.h,
--   Numbers/Ranges the ranges of its enumerations.
-- - MessageQueue: middleware/components/queue/mblue_queue.c. Fifo is the bounded list that a queue
--   promises to be, Refines its proof, Alloc the blocks of a queue on the heap.
-- - Timer: pal/timer, the pool of timers and the POSIX timers as far as the event queue uses them.
-- - EventQueue: middleware/components/event_queue. Bitmap is the map of pending types,
--   Handlers the call chain of an element, Delete, Wakeup and Reschedule follow the operations,
--   Helper is event_helper.c.
-- - Task: the message loop of pal/task/mblue_stdtask.c; it reads a MessageQueue. Served follows
--   a message through posts and rounds, Start is `task_start` with the table of
--   middleware/components/task_manager.
-- - SystemBus: middleware/components/system_bus and service/system_bus. It uses the pool, the code
--   words and the tasks. Call and Return follow remote calls, References the references of
--   their messages, Signal the delivery to subscribers; Service is the handlers of its task.
-- - Ipc: ipc/ipc.c and ipc/ipc_helper.c, how a task sends; Deliver follows a message to the bus.
-- - Segment: middleware/components/segment, how a segment runs its handlers; Dispatch is what the
--   default handlers do.
-- - Checksum: util/crc/mblue_crc.c and util/hash/mblue_hash.c. Reference is the CRC bit by bit, Table
--   compares the two, Errors is what it tells apart, Hash the two hashes.
-- - Clock: pal/clock. Reference is the Gregorian calendar, Years and Months are the two loops of
--   `convert_utc_to_calendar`, Convert compares the two calendars.
-- - Log: middleware/components/log/log.c and service/log/log_service.c, the manager and the service.
--   Text is the strings of C in a block, Terminal what a stream is handed; Client is
--   ipc/mblue_global_ipc_method.c, Name, Entry, Hex and Dump are about the texts that it sends.
-- - Persistence: middleware/components/persistence_manager/mb_persistence.c, the log in flash. Write,
--   and Unread, Progress, Read and Drain follow its ring; Logger is the table of its heads, Head the
--   search in it and Start the check at the first use; Entry is what the log writes and reads.
-- - Schema: middleware/components/data_schema/pb_schema.c, structs to buffers. Balance and Room follow
--   the buffer of a call, Drain the callback of a field of bytes. Parsers decodes a call and runs its
--   method, Parsers/Dispatch compares the two tables.
-- - Heap: `mblue_malloc` of pal/heap/mblue_heap.c; Align is the room for what it clears.
-- - Map: middleware/components/map/mblue_map.c. Vector is the parsing of integers, Fill a vector from
--   its allocation to its parsing.
-- - Semaphore: pal/semaphore, over POSIX semaphores as a parameter; Counting is the number that
--   its calls keep.
-- - Scenario: app/scenario/simple_scenario.c, a client of the event queue, and its timer's
--   signal; Wakeups follows that timer.
-- - Power: middleware/components/power/mblue_power_guard.c.
-- - Startup: `segment_bind` with the registration at the bus; Order is the start in any order of the
--   tasks.
-- - Common: lists with native indices, bits, words and signed numbers that the parts share.
-- - Tests: runs at concrete inputs.
--
-- State is a record, an operation a function from state to result and state. A pointer is an address
-- with 0 for NULL, or the place in its pool; a linked list is the list of its entries in link order.
-- A read, write or call through NULL or behind an array makes the result `none`, where the model has
-- it. Critical sections make each operation one step. The release build is modelled: DEBUG is
-- undefined and `_ASSERT` is empty. The target is 32 bits wide (linux_m32.cmake): words are numbers below 2^32.
-- A loop is recursion on the list or the number that it runs through. Five have fuel: the search for
-- the valid head, for which the 455 places of the table and one more are enough, the reader of the log,
-- which needs a call for every byte and one more to turn around, the draining of a stream, which takes
-- 16 bytes in a round, the parsing of a vector, with a round for each entry, and the search for the
-- year, with a round for every 365 days behind 1969. The bounds are the source's: 32 messages, 12
-- timers, 128 slots of a queue, 128 characters of a log entry, 7 segments, 16 tasks.
--
-- Not modelled: the copies of other projects (the lists and the ring buffer of Linux, nanopb, the
-- state machine with its wrapper), generated code, and the operating system under pal, whose answers
-- (memory, timers, semaphores, the time) are arguments. Handlers of events and segments answer with a code and do
-- not change the state of their caller. `printf` prints its arguments as C says, and what a caller's
-- format prints is an argument. The flash driver and nanopb are parameters.
pub mod Common
pub mod Errcode
pub mod SmartData
pub mod Message
pub mod MessageQueue
pub mod Timer
pub mod EventQueue
pub mod Task
pub mod SystemBus
pub mod Ipc
pub mod Segment
pub mod Checksum
pub mod Clock
pub mod Log
pub mod Persistence
pub mod Schema
pub mod Heap
pub mod Map
pub mod Power
pub mod Semaphore
pub mod Scenario
pub mod Startup
pub mod Tests
