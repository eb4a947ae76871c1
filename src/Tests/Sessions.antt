-- ===== src/Tests/Sessions.antt =====
-- Runs of the connectors over simple queues at concrete inputs.
use qbus.Prelude.{ℕ, ◌≡◌, some, []}
use qbus.Queue.{Queue}
use qbus.Queue.Fifo.Session.{Refines}
use qbus.Spec.{Fifo}
use qbus.Connector.{con_bidir}
use qbus.Connector.Simple.{Mapping}
use qbus.Connector.Simple.Session
use qbus.Connector.Simple.Session.{virtuals, over, answers, all_expected}
use qbus.Tests.Connecting.{seconds}
use qbus.Tests.Queues.{env, calls, calls-AreItems, made, made-Refines}

-- Memory is always there, at address 1000.
abbrev mapping : Mapping
mapping = record { create = λ w size. (w, some 1000); open_at = λ w. (w, some 1000) }

abbrev empty : Fifo
empty = record { cap = 70; start = 0; items = [] }

session-Answers_example :
    (q' : Queue) × (answers
        (virtuals {P = ℕ} mapping env con_bidir)
        seconds
        (over made con_bidir 0)
        calls
      ≡ (over q' con_bidir 0, (all_expected con_bidir empty calls).1))
    × Refines q' (all_expected con_bidir empty calls).0
session-Answers_example =
    Session.session-Answers ℕ mapping env seconds con_bidir calls made _ 0 made-Refines
      calls-AreItems

-- The memory that another process has made a queue in.
abbrev holding : Mapping
holding = record mapping { open_at = λ w. (w, some made.base) }
