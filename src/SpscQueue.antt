-- ===== src/SpscQueue.antt =====
-- engine/queues/SPSCQueue.hpp: the single-producer single-consumer ring buffer, its two operations
-- as functions, and the interleavings of one producer and one consumer as a step relation.
-- An atomic load or store is one step. `buffer_` is a function from the index.
pub mod Store
pub mod Fifo
pub mod Schedule
use event_driven_trading_sys.Base.{
  ℕ, zero, suc, ◌+◌, ◌-◌, ◌≡◌, Bool, true, false, ◌==◌, leb, if◌then◌else◌, List, [], ◌∷◌, ◌++◌,
  Option, none, some, bit_and, add64, sub64,
}

-- `i & MASK`
unfoldable pub slot : ℕ → ℕ → ℕ
slot capacity i = bit_and i (capacity - 1)

module _ {ℓ} (A : Type ℓ) where
  pub record Queue : Type ℓ where
    pub head : ℕ
    pub tail : ℕ
    pub buffer : ℕ → A

module _ {ℓ} {A : Type ℓ} where
  -- `SPSCQueue()`, with `T{}` in the buffer.
  abbrev pub empty_queue : A → Queue A
  empty_queue d = record { head = 0; tail = 0; buffer = λ _. d }

  abbrev pub write : (ℕ → A) → ℕ → A → ℕ → A
  write f i x j = if i == j then x else f j

  unfoldable pub enqueue : ℕ → Queue A → A → Queue A × Bool
  unfolding slot
  enqueue capacity q item =
      let tail = q.tail in
      let head = q.head in
      if leb capacity (sub64 tail head) then (q, false) else (
        record q { buffer = write q.buffer (slot capacity tail) item; tail = add64 tail 1 },
        true,
      )

  unfoldable pub dequeue : ℕ → Queue A → Queue A × Option A
  unfolding slot
  dequeue capacity q =
      let head = q.head in
      let tail = q.tail in
      if leb tail head
      then (q, none)
      else (record q { head = add64 head 1 }, some (q.buffer (slot capacity head)))

  unfoldable pub size_approx : Queue A → ℕ
  size_approx q = sub64 q.tail q.head

  unfoldable pub empty : Queue A → Bool
  empty q = leb q.tail q.head

-- Where a thread stands in its operation, with its local variables.
module _ {ℓ} (A : Type ℓ) where
  pub data Producer : Type ℓ where
    idle : Producer
    loaded : (item : A) (tail head : ℕ) → Producer
    wrote : (item : A) (tail : ℕ) → Producer

  pub data Consumer : Type ℓ where
    idle : Consumer
    loaded : (head tail : ℕ) → Consumer
    copied : (head : ℕ) (out : A) → Consumer

  -- `sent` and `received` record what `enqueue` published and what `dequeue` released, in order.
  pub record System : Type ℓ where
    pub queue : Queue A
    pub producer : Producer
    pub consumer : Consumer
    pub sent : List A
    pub received : List A

module _ {ℓ} {A : Type ℓ} where
  abbrev pub init : A → System A
  init d = record {
    queue = empty_queue d;
    producer = Producer.idle;
    consumer = Consumer.idle;
    sent = [];
    received = [];
  }

  -- One step of one thread. Each thread is the only writer of its counter, so the load of its own
  -- counter is one step with the load of the other's.
  pub data Step (capacity : ℕ) (s : System A) : System A → Type ℓ where
    begin_enqueue :
        (item : A)
        → s.producer ≡ Producer.idle
        → Step capacity s (record s { producer = Producer.loaded item s.queue.tail s.queue.head })
    refuse_enqueue :
        (item : A) (tail head : ℕ)
        → s.producer ≡ Producer.loaded item tail head
        → leb capacity (sub64 tail head) ≡ true
        → Step capacity s (record s { producer = Producer.idle })
    write_slot :
        (item : A) (tail head : ℕ)
        → s.producer ≡ Producer.loaded item tail head
        → leb capacity (sub64 tail head) ≡ false
        → Step capacity s (record s {
          queue = record (s.queue) { buffer = write s.queue.buffer (slot capacity tail) item };
          producer = Producer.wrote item tail;
        })
    publish :
        (item : A) (tail : ℕ)
        → s.producer ≡ Producer.wrote item tail
        → Step capacity s (record s {
          queue = record (s.queue) { tail = add64 tail 1 };
          producer = Producer.idle;
          sent = s.sent ++ (item ∷ []);
        })
    begin_dequeue :
        s.consumer ≡ Consumer.idle
        → Step capacity s (record s { consumer = Consumer.loaded s.queue.head s.queue.tail })
    refuse_dequeue :
        (head tail : ℕ)
        → s.consumer ≡ Consumer.loaded head tail
        → leb tail head ≡ true
        → Step capacity s (record s { consumer = Consumer.idle })
    copy_slot :
        (head tail : ℕ)
        → s.consumer ≡ Consumer.loaded head tail
        → leb tail head ≡ false
        → Step capacity s
            (record s { consumer = Consumer.copied head (s.queue.buffer (slot capacity head)) })
    release :
        (head : ℕ) (out : A)
        → s.consumer ≡ Consumer.copied head out
        → Step capacity s (record s {
          queue = record (s.queue) { head = add64 head 1 };
          consumer = Consumer.idle;
          received = s.received ++ (out ∷ []);
        })

  -- What any schedule of the two threads can reach.
  pub data Steps (capacity : ℕ) (s : System A) : System A → Type ℓ where
    start : Steps capacity s s
    next : {t u : System A} → Steps capacity s t → Step capacity t u → Steps capacity s u
