-- ===== src/Queue/Header.antt =====
-- The header fields of `base_queue` (qbus/queue.cpp): each setter changes its own field only.
use qbus.Prelude.{ℕ, ◌+◌, ◌%◌, ◌^◌, ◌≤◌, ◌<◌, ◌≡◌, refl, inl, inr, arith}
use qbus.Bytes.{Mem, read32}
use qbus.Bytes.Words.{
  Apart, Agree, write32-Apart, read32-Agree, read32-write32_self, read32-write32_apart,
}
use qbus.Message.Make.{Desc}
use qbus.Queue.{
  Queue, mem, capacity, keepalive_timeout, count, head, tail, set_count, set_head, set_tail,
}

-- What the messages and the header of a queue depend on: another memory with the same header.
pub record SameHeader (q q' : Queue) : Type 0 where
  pub base : q'.base ≡ q.base
  pub capacity_same : capacity q' ≡ capacity q
  pub timeout_same : keepalive_timeout q' ≡ keepalive_timeout q
  pub count_same : count q' ≡ count q
  pub head_same : head q' ≡ head q
  pub tail_same : tail q' ≡ tail q

header_field :
    (m m' : Mem) (base off : ℕ)
    → off ≤ 20
    → Agree m m' base 24
    → read32 m' (base + off) ≡ read32 m (base + off)
header_field m m' base off h same =
    read32-Agree m m' (base + off) (λ b p q. same b (omega arith) (omega arith))

pub SameHeader-Agree :
    (q q' : Queue) → q'.base ≡ q.base → Agree (mem q) (mem q') q.base 24 → SameHeader q q'
unfolding capacity keepalive_timeout count head tail
SameHeader-Agree q q' e same = record {
  base = e;
  capacity_same = rw e (header_field (mem q) (mem q') q.base 4 (omega arith) same);
  timeout_same = rw e (header_field (mem q) (mem q') q.base 8 (omega arith) same);
  count_same = rw e (header_field (mem q) (mem q') q.base 12 (omega arith) same);
  head_same = rw e (header_field (mem q) (mem q') q.base 16 (omega arith) same);
  tail_same = rw e (header_field (mem q) (mem q') q.base 20 (omega arith) same);
}

module _ (q : Queue) (v : ℕ) where
  pub set_tail-Apart : (b : ℕ) → Apart q.base 24 b → mem (set_tail q v) b ≡ mem q b
  unfolding set_tail
  set_tail-Apart b h = write32-Apart (mem q) (q.base + 20) (v % capacity q) b (ground arith)

  pub set_head-Apart : (b : ℕ) → Apart q.base 24 b → mem (set_head q v) b ≡ mem q b
  unfolding set_head
  set_head-Apart b h = write32-Apart (mem q) (q.base + 16) (v % capacity q) b (ground arith)

  pub set_count-Apart : (b : ℕ) → Apart q.base 24 b → mem (set_count q v) b ≡ mem q b
  unfolding set_count
  set_count-Apart b h = write32-Apart (mem q) (q.base + 12) v b (ground arith)

  pub capacity-set_tail : capacity (set_tail q v) ≡ capacity q
  unfolding set_tail capacity
  capacity-set_tail = read32-write32_apart (mem q) (q.base + 20) _ (q.base + 4) (inl (omega arith))

  pub head-set_tail : head (set_tail q v) ≡ head q
  unfolding set_tail head
  head-set_tail = read32-write32_apart (mem q) (q.base + 20) _ (q.base + 16) (inl (omega arith))

  pub count-set_tail : count (set_tail q v) ≡ count q
  unfolding set_tail count
  count-set_tail = read32-write32_apart (mem q) (q.base + 20) _ (q.base + 12) (inl (omega arith))

  pub tail-set_tail : v % capacity q < 2 ^ 32 → tail (set_tail q v) ≡ v % capacity q
  unfolding set_tail tail
  tail-set_tail h = read32-write32_self (mem q) (q.base + 20) _ h

  pub timeout-set_tail : keepalive_timeout (set_tail q v) ≡ keepalive_timeout q
  unfolding set_tail keepalive_timeout
  timeout-set_tail = read32-write32_apart (mem q) (q.base + 20) _ (q.base + 8) (inl (omega arith))

  pub timeout-set_head : keepalive_timeout (set_head q v) ≡ keepalive_timeout q
  unfolding set_head keepalive_timeout
  timeout-set_head = read32-write32_apart (mem q) (q.base + 16) _ (q.base + 8) (inl (omega arith))

  pub timeout-set_count : keepalive_timeout (set_count q v) ≡ keepalive_timeout q
  unfolding set_count keepalive_timeout
  timeout-set_count = read32-write32_apart (mem q) (q.base + 12) v (q.base + 8) (inl (omega arith))

  pub capacity-set_head : capacity (set_head q v) ≡ capacity q
  unfolding set_head capacity
  capacity-set_head = read32-write32_apart (mem q) (q.base + 16) _ (q.base + 4) (inl (omega arith))

  pub tail-set_head : tail (set_head q v) ≡ tail q
  unfolding set_head tail
  tail-set_head = read32-write32_apart (mem q) (q.base + 16) _ (q.base + 20) (inr (omega arith))

  pub count-set_head : count (set_head q v) ≡ count q
  unfolding set_head count
  count-set_head = read32-write32_apart (mem q) (q.base + 16) _ (q.base + 12) (inl (omega arith))

  pub head-set_head : v % capacity q < 2 ^ 32 → head (set_head q v) ≡ v % capacity q
  unfolding set_head head
  head-set_head h = read32-write32_self (mem q) (q.base + 16) _ h

  pub capacity-set_count : capacity (set_count q v) ≡ capacity q
  unfolding set_count capacity
  capacity-set_count = read32-write32_apart (mem q) (q.base + 12) v (q.base + 4) (inl (omega arith))

  pub tail-set_count : tail (set_count q v) ≡ tail q
  unfolding set_count tail
  tail-set_count = read32-write32_apart (mem q) (q.base + 12) v (q.base + 20) (inr (omega arith))

  pub head-set_count : head (set_count q v) ≡ head q
  unfolding set_count head
  head-set_count = read32-write32_apart (mem q) (q.base + 12) v (q.base + 16) (inr (omega arith))

  pub count-set_count : v < 2 ^ 32 → count (set_count q v) ≡ v
  unfolding set_count count
  count-set_count h = read32-write32_self (mem q) (q.base + 12) v h

-- The kept description is no part of the header.
module _ (q : Queue) (desc : Desc) where
  pub capacity-desc : capacity (record q { message_desc = desc }) ≡ capacity q
  unfolding capacity
  capacity-desc = refl

  pub head-desc : head (record q { message_desc = desc }) ≡ head q
  unfolding head
  head-desc = refl

  pub timeout-desc : keepalive_timeout (record q { message_desc = desc }) ≡ keepalive_timeout q
  unfolding keepalive_timeout
  timeout-desc = refl
