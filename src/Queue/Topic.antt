-- ===== src/Queue/Topic.antt =====
-- The subscribers of one `shared_queue` (qbus/queue.cpp): the header, the messages and the ring are
-- shared, and each subscriber's object has a head, a counter and a pulled message of its own.
-- `Serves` says that they stand for a topic of `Spec.Topic`.
pub mod Walk
pub mod Counted
pub mod Advance
pub mod Place
pub mod Get
pub mod Pop
pub mod Rest
pub mod Round
pub mod Clean
pub mod Told
pub mod Pushed
pub mod Push
pub mod Session
pub mod Created
pub mod Start
use qbus.Prelude.{
  ℕ, ◌+◌, ◌-◌, ◌^◌, ◌≤◌, ◌<◌, ◌≡◌, ◌⊎◌, Bool, List, [], ◌∷◌, length, drop, Run, done, ◌>>=◌,
  if◌then◌else◌, ◌==◌, sub32,
}
use qbus.Message.{Env}
use qbus.Message.Make.{Desc, no_message}
use qbus.Queue.{Queue, mem, data_start, capacity, head, tail, count, keepalive_timeout}
use qbus.Queue.Layout.{Item}
use qbus.Queue.Class.{Class}
use qbus.Queue.Base
use qbus.Queue.Shared
use qbus.Queue.Shared.{no_head}
use qbus.Queue.Fifo.{HoldsAt, IsFirst}
use qbus.Queue.Fifo.Session.{read_item}
use qbus.Queue.Topic.Walk.{walk}
use qbus.Queue.Topic.Counted.{AreCounted}
use qbus.Spec.{Op, Reply}
use qbus.Spec.Topic.{Topic}

-- What an object of a subscriber keeps beside the shared memory.
pub record Local : Type 0 where
  pub m_head : ℕ
  pub m_counter : ℕ
  pub message_desc : Desc

pub record System : Type 0 where
  pub queue : Queue
  pub readers : ℕ → Local

abbrev pub wear : Queue → Local → Queue
wear q r = record q { m_head = r.m_head; m_counter = r.m_counter; message_desc = r.message_desc }

abbrev pub own : Queue → Local
own q = record { m_head = q.m_head; m_counter = q.m_counter; message_desc = q.message_desc }

-- The object of the subscriber `i`.
abbrev pub object : System → ℕ → Queue
object s i = wear s.queue (s.readers i)

-- What a call of the subscriber `i` leaves.
abbrev pub keep : System → ℕ → Queue → System
keep s i q = record { queue = q; readers = λ j. if j == i then own q else s.readers j }

unfoldable pub call : Env → System → ℕ → Op → Run (System × Reply)
call env s i (Op.push x) = do
  (q, b) ← Base.push Class.shared env (object s i) x.tag x.body
  done (keep s i q, Reply.pushed b)
call env s i Op.get = do
  (q, chain) ← Base.get Class.shared env (object s i)
  done (keep s i q, Reply.got (read_item q chain))
call env s i Op.pop = do
  (q, b) ← Base.pop Class.shared env (object s i)
  done (keep s i q, Reply.popped b)

-- Calls of the subscribers, in the order in which they take the lock.
unfoldable pub calls : Env → System → List (ℕ × Op) → Run (System × List Reply)
calls env s [] = done (s, [])
calls env s ((i, op) ∷ rest) = do
  (s1, r) ← call env s i op
  (s2, rs) ← calls env s1 rest
  done (s2, r ∷ rs)

-- The shared memory holds the messages, each counting the `n` subscribers that have not seen it.
pub record Log (q : Queue) (n : ℕ) (xs : List Item) (seen : ℕ → ℕ) : Type 0 where
  pub held : HoldsAt (mem q) (data_start q) (capacity q) (head q) (tail q) (count q) no_message xs
  pub counted : AreCounted (mem q) (data_start q) (capacity q) (head q) xs n seen
  pub subscribed : Shared.subscriptions_count q ≡ n
  pub few : n < 2 ^ 32
  pub before : q.shared + 8 ≤ q.base
  pub counter_small : Shared.counter q < 2 ^ 32
  pub no_timeout : keepalive_timeout q ≡ 0

-- A subscriber has seen `k` of the messages `xs`; `total` is the counter of all messages so far.
pub record Stands (d c hd total : ℕ) (xs : List Item) (k : ℕ) (r : Local) : Type 0 where
  pub seen_le : k ≤ length xs
  pub place : ((r.m_head ≡ no_head) × (k ≡ 0)) ⊎ (r.m_head ≡ walk c hd xs k)
  pub left : sub32 total r.m_counter ≡ length xs - k
  pub own_small : r.m_counter < 2 ^ 32
  pub pulled : (r.message_desc.chain ≡ []) ⊎ IsFirst d c (walk c hd xs k) r.message_desc (drop k xs)

-- `Stands`, over the shared fields of a queue.
abbrev pub StandsIn : Queue → List Item → ℕ → Local → Type 0
StandsIn q xs k r = Stands (data_start q) (capacity q) (head q) (Shared.counter q) xs k r

pub record Serves (s : System) (n : ℕ) (t : Topic) : Type 0 where
  pub log : Log s.queue n t.items t.seen
  pub cap_at : capacity s.queue ≡ t.cap
  pub start_at : head s.queue ≡ t.start
  pub readers : (i : ℕ) → i < n → StandsIn s.queue t.items (t.seen i) (s.readers i)

-- What a call leaves and returns, against the answer of the topic.
pub record Answers (n : ℕ) (a : Topic × Reply) (out : Run (System × Reply)) : Type 0 where
  pub system : System
  pub answered_at : out ≡ done (system, a.1)
  pub serves : Serves system n a.0

-- All subscribers of a queue object stand for a list.
abbrev pub AllStand : Queue → ℕ → List Item → (ℕ → ℕ) → (ℕ → Local) → Type 0
AllStand q n xs seen readers = (i : ℕ) → i < n → StandsIn q xs (seen i) (readers i)
