-- ===== src/Queue/Reader/Session.antt =====
-- A client that reads a `shared_queue` (qbus/queue.cpp) to its end.
use qbus.Prelude.{
  ℕ, zero, suc, ◌≡◌, refl, Bool, true, List, [], ◌∷◌, length, Option, some, Run, done, ◌>>=◌,
}
use qbus.Message.{Env}
use qbus.Queue.{Queue}
use qbus.Queue.Layout.{Item}
use qbus.Queue.Class.{Class}
use qbus.Queue.Base
use qbus.Queue.Reader.{Views, Owes}
use qbus.Queue.Reader.Pop.{get-Gets_shared, pop-Views, Owes-desc}
use qbus.Queue.Fifo.Session.{read_item, read_item-Carries}

-- What a client sees of one message: what it reads between `get` and `pop`, and whether the pop
-- succeeds.
abbrev pub Seen : Type 0
Seen = Option Item × Bool

-- `n` times, a client gets a message, reads it, and pops it.
unfoldable pub read_all : Env → Queue → ℕ → Run (Queue × List Seen)
read_all env q zero = done (q, [])
read_all env q (suc n) = do
  (q1, chain) ← Base.get Class.shared env q
  (q2, ok) ← Base.pop Class.shared env q1
  (q3, rest) ← read_all env q2 n
  done (q3, (read_item q1 chain, ok) ∷ rest)

-- Each message once, in order.
abbrev pub all_seen : List Item → List Seen
all_seen [] = []
all_seen (x ∷ xs) = (some x, true) ∷ all_seen xs

-- A reader of a shared queue receives exactly the messages before it, each once, in order, whole and
-- with its tag, if readers are still counted on each of them. Every call returns, every pop succeeds,
-- and no message is before the reader at the end.
pub read_all-Views :
    (env : Env) (q : Queue) (xs : List Item)
    → Views q xs
    → Owes q xs
    → (q' : Queue) × (read_all env q (length xs) ≡ done (q', all_seen xs)) × Views q' []
unfolding read_all read_item
read_all-Views env q [] v owed = (q, refl, v)
read_all-Views env q (x ∷ xs) v owed =
    let g = get-Gets_shared env q (x ∷ xs) v in
    let q1 : Queue = record q { message_desc = g.desc } in
    let p = pop-Views env q1 x xs g.views_still (Owes-desc q g.desc (x ∷ xs) owed) in
    let rest = read_all-Views env p.0 xs p.2 p.3 in
    (rest.0, rw (g.got_at, p.1, rest.1, read_item-Carries q g.chain (x ∷ xs) g.carries), rest.2)
