-- ===== src/Connector/Simple.antt =====
-- `simple_connector` of qbus/connector.h over the queues of qbus/queue.cpp, with `shared_connector`
-- of qbus/connector.cpp below it, and the connectors of one direction. A call that is a fault leaves
-- the state `fault` behind, in which every further call is one.
pub mod Session
pub mod Start
use qbus.Prelude.{
  ℕ, Bool, true, false, List, [], ◌∷◌, Option, none, some, Run, done, spent, fault, ◌>>=◌,
}
use qbus.Message.{Env, World, Pmessage}
use qbus.Queue
use qbus.Queue.{Queue}
use qbus.Queue.Open
use qbus.Queue.Shared
use qbus.Queue.Class.{Class}
use qbus.Queue.Base
use qbus.Connector.{Virtuals, Direction, con_in, con_out, con_bidir}

-- The shared memory object that a connector has, under its name: whether it can be created with a
-- size, or opened, and the address at which it is mapped.
pub record Mapping : Type 0 where
  pub create : World → (size : ℕ) → World × Option ℕ
  pub open_at : World → World × Option ℕ

-- A connector before and after it has a queue.
pub data Cell : Type 0 where
  closed : World → Cell
  queued : Queue → Cell

abbrev pub world_of : Cell → World
world_of (closed w) = w
world_of (queued q) = q.world

-- The queues that qbus/connector.h makes connectors of.
pub data QueueType : Type 0 where
  simple_queue : QueueType
  shared_queue : QueueType
  unreadable_shared_queue : QueueType

abbrev pub class_of : QueueType → Class
class_of simple_queue = Class.simple
class_of shared_queue = Class.shared
class_of unreadable_shared_queue = Class.unreadable

unfoldable pub make_queue : QueueType → World → (cid ptr size : ℕ) → Run Queue
make_queue simple_queue w cid ptr size = Open.create_simple w cid ptr size
make_queue shared_queue w cid ptr size = Open.create_shared w cid ptr size
make_queue unreadable_shared_queue w cid ptr size = Open.create_unreadable w cid ptr size

unfoldable pub attach_queue : QueueType → World → (ptr : ℕ) → Queue
attach_queue simple_queue w ptr = Open.open_simple w ptr
attach_queue shared_queue w ptr = Open.open_shared w ptr
attach_queue unreadable_shared_queue w ptr = Open.open_unreadable w ptr

unfoldable pub memory_size : QueueType → (size : ℕ) → ℕ
memory_size simple_queue size = Queue.static_size size
memory_size shared_queue size = Shared.static_size size
memory_size unreadable_shared_queue size = Shared.static_size size

-- The keep-alive timeout of a new queue, if there is one.
unfoldable pub with_timeout : Queue → Option ℕ → Queue
with_timeout q none = q
with_timeout q (some seconds) = Queue.set_keepalive_timeout q seconds

abbrev pub in_world : Cell → World → Cell
in_world (closed w') w = closed w
in_world (queued q) w = queued (record q { world = w })

-- `create_queue` and `open_queue`, at the address of the memory if there is one. The parent does
-- not matter: `queue::create` and `queue::open` of these classes do not use it.
unfoldable pub create_queue :
    QueueType → Cell → ℕ → ℕ → Option ℕ → World × Option ℕ → Run Cell × Bool
create_queue type cell cid size timeout (w, none) = (done (in_world cell w), false)
create_queue type cell cid size timeout (w, some ptr) =
    (make_queue type w cid ptr size >>= λ q. done (queued (with_timeout q timeout)), true)

unfoldable pub open_queue : QueueType → Cell → World × Option ℕ → Run Cell × Bool
open_queue type cell (w, none) = (done (in_world cell w), false)
open_queue type cell (w, some ptr) = (done (queued (attach_queue type w ptr)), true)

-- `free_queue`: the destructor of the queue runs, that of `shared_queue` ends the subscription.
unfoldable pub detach_queue : QueueType → Queue → Queue
detach_queue simple_queue q = q
detach_queue shared_queue q = Open.close_shared q
detach_queue unreadable_shared_queue q = q

unfoldable pub free_queue : QueueType → Cell → Cell
free_queue type (closed w) = closed w
free_queue type (queued q) = closed (detach_queue type q).world

-- A call of the queue, which fails with `failed` once there has been a fault.
abbrev pub kept : {A : Type 0} → A → Run (Queue × A) → Run Cell × A
kept failed (done (q, a)) = (done (queued q), a)
kept failed spent = (spent, failed)
kept failed fault = (fault, failed)

unfoldable pub on_queue : {A : Type 0} → (Queue → Run (Queue × A)) → A → Run Cell → Run Cell × A
on_queue call failed (done (queued q)) = kept failed (call q)
on_queue call failed (done (closed w)) = (fault, failed)
on_queue call failed spent = (spent, failed)
on_queue call failed fault = (fault, failed)

-- The null pointer is no message.
abbrev pub message_at : Pmessage → Option Pmessage
message_at [] = none
message_at (p ∷ rest) = some (p ∷ rest)

abbrev pub with_message : Queue × Pmessage → Run (Queue × Option Pmessage)
with_message (q, pmessage) = done (q, message_at pmessage)

-- The capacity of the queue: 0 where the code would follow a null pointer, which `capacity` of
-- `base_connector` excludes.
unfoldable pub get_capacity : Run Cell → ℕ
get_capacity (done (queued q)) = Queue.capacity q
get_capacity (done (closed w)) = 0
get_capacity spent = 0
get_capacity fault = 0

module _ (type : QueueType) (mapping : Mapping) (env : Env) where
  unfoldable pub do_create : Run Cell → ℕ → ℕ → Option ℕ → Run Cell × Bool
  do_create (done cell) cid size timeout =
      create_queue type cell cid size timeout
        (mapping.create (world_of cell) (memory_size type size))
  do_create spent cid size timeout = (spent, false)
  do_create fault cid size timeout = (fault, false)

  unfoldable pub do_open : Run Cell → Run Cell × Bool
  do_open (done cell) = open_queue type cell (mapping.open_at (world_of cell))
  do_open spent = (spent, false)
  do_open fault = (fault, false)

  unfoldable pub do_push : Run Cell → ℕ → List ℕ → Run Cell × Bool
  do_push s tag source = on_queue (λ q. Base.push (class_of type) env q tag source) false s

  unfoldable pub do_get : Run Cell → Run Cell × Option Pmessage
  do_get s = on_queue (λ q. Base.get (class_of type) env q >>= with_message) none s

  unfoldable pub do_pop : Run Cell → Run Cell × Bool
  do_pop s = on_queue (Base.pop (class_of type) env) false s

  abbrev pub simple_connector : {P : Type 0} → Virtuals (Run Cell) P Pmessage
  simple_connector = record {
    do_create = λ s cid size timeout parent. do_create s cid size timeout;
    do_open = λ s parent. do_open s;
    do_push = do_push;
    do_get = do_get;
    do_pop = do_pop;
    get_capacity = get_capacity;
  }

-- `output_connector`, `input_connector` and `bidirectional_connector` of a connector.
abbrev pub output_connector : {W P M : Type 0} → Virtuals W P M → Virtuals W P M
output_connector v = record v { do_get = λ s. (s, none); do_pop = λ s. (s, false) }

abbrev pub input_connector : {W P M : Type 0} → Virtuals W P M → Virtuals W P M
input_connector v = record v { do_push = λ s tag source. (s, false) }

abbrev pub directed : {W P M : Type 0} → Direction → Virtuals W P M → Virtuals W P M
directed con_in v = input_connector v
directed con_out v = output_connector v
directed con_bidir v = v
