-- ===== src/Tests/Topics.antt =====
-- Runs of the subscribers of a shared queue at concrete inputs.
use qbus.Prelude.{ℕ, ◌≡◌, arith, List, [], ◌∷◌, Run, done, ◌>>=◌}
use qbus.Message.{World}
use qbus.Queue.Layout.{Item}
use qbus.Queue.Topic.{System, calls, Serves}
use qbus.Queue.Topic.Created.{join, subscribed}
use qbus.Queue.Topic.Start.{subscribed-IsFeed, subscribed-calls}
use qbus.Queue.Topic.Session.{AreCalls}
use qbus.Spec.{Op, Reply}
use qbus.Spec.Topic
use qbus.Spec.Feed.{IsFeed}
use qbus.Tests.Queues.{env}

abbrev blank : World
blank = record { mem = λ a. 0; ticks = 0 }

abbrev item : ℕ → Item
item tag = record { tag = tag; body = 1 ∷ 2 ∷ 3 ∷ [] }

-- Two messages of 27 bytes fit into 70; the third one fits when both subscribers have seen the first.
abbrev session : List (ℕ × Op)
session =
    (0, Op.push (item 5))
    ∷ (1, Op.push (item 6))
    ∷ (0, Op.push (item 7))
    ∷ (1, Op.get)
    ∷ (1, Op.pop)
    ∷ (0, Op.push (item 7))
    ∷ (0, Op.pop)
    ∷ (0, Op.push (item 7))
    ∷ (1, Op.get)
    ∷ []

session-AreCalls : AreCalls 2 session
session-AreCalls = (
  omega arith,
  (omega arith, omega arith),
  (
    omega arith,
    (omega arith, omega arith),
    (
      omega arith,
      (omega arith, omega arith),
      (
        omega arith,
        (
          omega arith,
          (
            omega arith,
            (omega arith, omega arith),
            (omega arith, (omega arith, (omega arith, omega arith), (omega arith, tt))),
          ),
        ),
      ),
    ),
  ),
)

subscribed-IsFeed_example :
    (s : System) × (replies : List Reply) × ((subscribed 1 blank 1 1000 70 >>= λ s0.
    calls env s0 session)
      ≡ done (s, replies))
    × IsFeed [] (λ i. 0) session replies
subscribed-IsFeed_example =
    subscribed-IsFeed env 1 blank 1 1000 70 session (omega arith) (omega arith) (omega arith)
      session-AreCalls

subscribed-calls_example :
    (s : System) × ((subscribed 1 blank 1 1000 70 >>= λ s0. calls env s0 session)
      ≡ done (s, (Topic.answers 2 (Topic.empty 70) session).1))
    × Serves s 2 (Topic.answers 2 (Topic.empty 70) session).0
subscribed-calls_example =
    subscribed-calls env 1 blank 1 1000 70 session (omega arith) (omega arith) (omega arith)
      session-AreCalls

abbrev replies_of : Run (System × List Reply) → Run (List Reply)
replies_of out = do (s, replies) ← out; done replies

abbrev session_replies : Run (List Reply)
session_replies = replies_of (subscribed 1 blank 1 1000 70 >>= λ s0. calls env s0 session)

-- A subscriber that opens the queue when there is a message in it: its first pop takes the message
-- that it is not counted on.
abbrev late_replies : Run (List Reply)
late_replies = do
  s0 ← subscribed 0 blank 1 1000 200
  (s1, r1) ← calls env s0 ((0, Op.push (item 5)) ∷ [])
  replies_of (
      calls env (join 1000 1 s1) (
        (0, Op.push (item 6))
        ∷ (1, Op.get)
        ∷ (1, Op.pop)
        ∷ (0, Op.push (item 7))
        ∷ (0, Op.get)
        ∷ []))
