-- ===== src/Lib.antt =====
-- qbus: queues of messages in shared memory.
--
-- Processes talk over a bus: a block of shared memory with queues in it. A queue (qbus/queue.h,
-- qbus/queue.cpp) is a header and a ring of bytes. A message (qbus/message.h, qbus/message.cpp) is
-- written into the free region of the ring; at the end of the ring it is split into a chain of two
-- messages, or the bytes that are left are skipped. A push writes at the tail, a pop frees at the
-- head, and a get returns the oldest message in place. A bus (qbus/bus.h, qbus/bus.cpp) has a list
-- of connectors, each with a queue: a push goes to the newest one, and adds a larger one when it
-- is full; a get and a pop take from the oldest one, and remove it when it is empty.
--
-- Files and code:
--   Prelude           names from the library, Boolean tests, lists, fuel, 32-bit and 64-bit words
--   Bytes             the shared memory as a function from addresses to bytes, little-endian words
--   Memory            shared_memory (qbus/memory.cpp) over the objects of boost::interprocess
--   Message           base_message: header fields, reference counter (qbus/message.cpp)
--   Message/Fields    laws of the fields
--   Message/Chain     base_message::pack, unpack, attach and the sizes (qbus/message.cpp)
--   Message/Make      message::static_make_message, static_get_message (qbus/message.h)
--   Queue             base_queue: header, get_free_region, get_busy_region (qbus/queue.cpp)
--   Queue/Simple      simple_queue; Queue/Shared base_shared_queue; Queue/Smart smart_shared_queue
--   Queue/Class       the virtual operations, by class; Queue/Base push, get, pop, clean over them
--   Queue/Open        the constructors and destructors
--   Queue/Service     the constructors and the destructor of smart_shared_queue
--   Queue/Reader      what a reader of shared_queue has before it (Views), kept by get and pop;
--                     Reader/Session a client that reads to the end
--   Queue/Topic       the subscribers of one shared_queue: the shared memory (Log), what each object
--                     keeps of its own (Stands), and what get, pop, clean_messages and push do to
--                     them; Topic/Session calls of all subscribers, Topic/Start from the creation on
--   Queue/Layout      where a message of n bytes lies in a ring, and how many bytes it uses
--   Queue/Regions     the free and the busy region of a ring, by whether the bytes in use wrap
--   Queue/Write, Read making a message in the free region, finding one in the busy region
--   Queue/Fifo        the invariant (Holds: the ring holds these messages), kept by push, get, pop
--   Queue/Fifo/Session, Queue/Open/Fresh    sequences of calls against Spec
--   Spec              the queue a client sees: a list with an account of the bytes in use
--   Spec/Topic        the same for subscribers that have each seen some of the list; Spec/Feed what
--                     they see of all messages ever published
--   Bus               base_bus (qbus/bus.cpp) over an interface of connectors; Bus/Calls push, get
--                     and pop, Bus/Names the identifiers of the list of connectors, Bus/Laws the
--                     invariant, Bus/Loops the loops, Bus/Growth the capacities
--   Bus/Directed      output_bus and input_bus (qbus/bus.h)
--   Bus/Safe          base_safe_bus (qbus/bus.h): its block of shared memory; Safe/Users its users
--   Bus/Shared        shared_bus (qbus/bus.cpp): its copy of the control block and the updates;
--                     Shared/Calls the messages, Shared/Start and Open creating and opening, Laws the
--                     invariant, Shared/Update, Rounds and Messages what the updates and the calls do,
--                     Shared/Drift the calls of a bus that is not up to date
--   Connector         base_connector (qbus/connector.cpp); Connector/Timed its timed calls
--   Connector/Safe    base_safe_connector and safe_connector (qbus/connector.h) under their locker;
--                     Safe/Push the push, Safe/Rounds and Safe/Get the timed calls, Safe/Ready the
--                     shared_locker and shared_barrier under them; Safe/Life the block of shared
--                     memory, Safe/Users the processes that have it open
--   Connector/Simple  simple_connector, input_connector and output_connector (qbus/connector.h) over
--                     the queues; Simple/Start create and open, Simple/Session calls against Spec
--   Timespec          the operators on times (qbus/common.cpp); Timespec/Order, Sums their laws
--   Locker            shared_locker (qbus/locker.h, qbus/locker.cpp): the guarded operations
--   Locker/Threads    threads that call its methods, as a step relation; Locker/Exclusion their laws
--   Locker/Calls      the blocking methods while no other thread moves, for the guards
--   Locker/Barrier    shared_barrier and its threads; Barrier/Laws its counters
--   Locker/Spin       spinlock; Locker/Scoped and Sharable the guards scoped_lock and sharable_lock
--   Tests             runs at concrete inputs
--
-- The state of a queue object (Queue.Queue) has the memory, the address of its header, and the
-- members the code keeps in the process: the description of the message that get returned, the
-- head and the counter of a reader. A method takes the object and returns the new one. Whatever
-- dereferences a null pointer or an iterator out of range returns `fault`, and a loop that has no
-- fuel left returns `spent`.
--
-- The subscribers of a shared_queue (Queue/Topic) call it one at a time, as they do under the
-- locker of a safe connector; a system is the memory and the own fields of each object.
--
-- Sizes in the header are 32-bit words, as the code stores them, and arithmetic on size_t wraps
-- round at 2^64 where the code does not test before it. The search for a region with room has fuel
-- 4: a ring has at most two free regions, and the third step finds an empty one. The chunks of a
-- message are at most two. The loops of the bus and of the timed calls take their fuel as an
-- argument; the results say how much is enough: a round for every connector that can be added or
-- removed, or that another process has added or removed, and for every read of the clock up to the
-- deadline.
--
-- Parameters: the shared memory objects of boost (Memory, Objects; in Connector/Simple what they
-- map, Mapping), the process id
-- (Env.sid) and the clock (Env.clock, a function of the number of calls made, which World.ticks
-- counts), of which nothing is assumed but that it comes to the deadline of a timed call, and the
-- compare-and-swap that spinlock uses, which is assumed to swap as documented. Between the calls
-- of a process the control block of a bus can become anything; during a call no other process
-- changes it. A block that shared_locker runs under the spin lock of boost is one step of its
-- thread, and so is one of shared_barrier under its mutex. A wait at the semaphore of boost takes
-- a token, and a timed one fails only while there is none.
--
-- Not modelled: the objects and regions of boost::interprocess, shared_posix_locker (pthread
-- calls), and the printing of a queue. The calls on the block of memory of a safe connector
-- (qbus/connector.h) and of a safe bus (qbus/bus.h) that open and end it are taken one after the
-- other, and each maps the memory or fails to: spinlock, which is there to keep them apart, does
-- not wait (Locker.Spin.lock_never_waits), and calls that overlap are left out. In the timed
-- methods of a safe connector (Connector/Safe) no other thread moves. A connector of a bus has its
-- identifier by an interface (Connectors.id_of), which reads it from the name that make_connector
-- gives it; the destructor of a connector is an operation of the interface (Connectors.drop),
-- which runs where the list or make_connector lets the connector go.
pub mod Prelude
pub mod Bytes
pub mod Message
pub mod Queue
pub mod Spec
pub mod Timespec
pub mod Locker
pub mod Connector
pub mod Bus
pub mod Memory
pub mod Tests
