-- ===== src/SpscQueue/Schedule.antt =====
-- The schedules of engine/queues/SPSCQueue.hpp: what every one of them delivers, and that a call of
-- `enqueue` or `dequeue` that nothing interrupts is one of them.
use event_driven_trading_sys.Base.{
  ℕ, ◌+◌, ◌^◌, ◌≤◌, ◌<◌, ◌≡◌, refl, sym, ◌∙◌, ap, inl, inr, leb, if◌then◌else◌, List, [], ◌∷◌, ◌++◌,
  Option, none, some, arith, sub64, u64_mod, length, length-append, take, length-take, Bool-cases,
}
use event_driven_trading_sys.SpscQueue.{
  Producer, Consumer, System, init, enqueue, dequeue, Step, Steps, begin_enqueue, refuse_enqueue,
  write_slot, publish, begin_dequeue, refuse_dequeue, copy_slot, release, start, next,
}
use event_driven_trading_sys.SpscQueue.Fifo.{IsFifo, step-IsFifo}

module _ {ℓ} {A : Type ℓ} where
  init-IsFifo : (k : ℕ) (d : A) → IsFifo k (init d)
  init-IsFifo k d = record {
    store = record {
      count_sent = refl;
      prefix = refl;
      order = omega arith;
      room = omega arith;
      slots = λ i h l. absurd (omega arith);
    };
    on_producer = refl;
    on_consumer = refl;
  }

  -- Nothing that was sent is taken back.
  sent-grows : (capacity : ℕ) (s u : System A) → Step capacity s u → length s.sent ≤ length u.sent
  sent-grows c s u (begin_enqueue item e) = omega arith
  sent-grows c s u (refuse_enqueue item tail head e h) = omega arith
  sent-grows c s u (write_slot item tail head e h) = omega arith
  sent-grows c s u (publish item tail e) = omega (arith, length-append s.sent (item ∷ []))
  sent-grows c s u (begin_dequeue e) = omega arith
  sent-grows c s u (refuse_dequeue head tail e h) = omega arith
  sent-grows c s u (copy_slot head tail e h) = omega arith
  sent-grows c s u (release head out e) = omega arith

  Steps-IsFifo :
      (k : ℕ) (d : A) (s : System A)
      → Steps (2 ^ k) (init d) s
      → length s.sent < u64_mod
      → IsFifo k s
  Steps-IsFifo k d s start small = init-IsFifo k d
  Steps-IsFifo k d s (next {t} run step) small =
      step-IsFifo k t s step small
        (Steps-IsFifo k d t run (omega (arith, sent-grows (2 ^ k) t s step)))

  -- In every interleaving of the producer's and the consumer's atomic steps on a new queue over a
  -- capacity that is a power of two, with fewer than 2^64 items sent, what the consumer received
  -- is the first part of what the producer sent, in order, and at most the capacity is in between.
  pub Steps-received :
      (k : ℕ) (d : A) (s : System A)
      → Steps (2 ^ k) (init d) s
      → length s.sent < u64_mod
      → (s.received ≡ take (length s.received) s.sent)
        × (length s.received ≤ length s.sent)
        × (length s.sent ≤ length s.received + 2 ^ k)
  Steps-received k d s run small =
      let v = (Steps-IsFifo k d s run small).store in
      let n : length s.received ≡ s.queue.head =
        ap length v.prefix
        ∙ length-take s.queue.head s.sent (omega (arith, v.order, v.count_sent)) in
      (
        v.prefix ∙ ap (λ m. take m s.sent) (sym n),
        omega (arith, v.order, v.count_sent),
        omega (arith, v.room, v.count_sent),
      )

  -- With an idle producer, a call of `enqueue` is a run of the producer's atomic steps: it
  -- publishes the item if it answers true, and nothing if it answers false.
  pub enqueue-Steps :
      (capacity : ℕ) (s : System A) (item : A)
      → s.producer ≡ Producer.idle
      → let r = enqueue capacity s.queue item in
        Steps capacity s (record s {
          queue = r.0;
          producer = Producer.idle;
          sent = if r.1 then s.sent ++ (item ∷ []) else s.sent;
        })
  unfolding enqueue
  enqueue-Steps capacity s item e =
      elim (Bool-cases (leb capacity (sub64 s.queue.tail s.queue.head))) [
        | inl full ↦
            rw full (next (next start (begin_enqueue item e)) (refuse_enqueue item _ _ refl full))
        | inr free ↦ rw free (
            next (next (next start (begin_enqueue item e)) (write_slot item _ _ refl free))
              (publish item _ refl))
      ]

  abbrev pub delivered : Option A → List A → List A
  delivered none xs = xs
  delivered (some x) xs = xs ++ (x ∷ [])

  -- With an idle consumer, a call of `dequeue` is a run of the consumer's atomic steps: the item
  -- that it returns, if any, is the one that was received.
  pub dequeue-Steps :
      (capacity : ℕ) (s : System A)
      → s.consumer ≡ Consumer.idle
      → let r = dequeue capacity s.queue in
        Steps capacity s
          (record s { queue = r.0; consumer = Consumer.idle; received = delivered r.1 s.received })
  unfolding dequeue
  dequeue-Steps capacity s e = elim (Bool-cases (leb s.queue.tail s.queue.head)) [
    | inl none_left ↦
        rw none_left (next (next start (begin_dequeue e)) (refuse_dequeue _ _ refl none_left))
    | inr some_left ↦ rw some_left (
        next (next (next start (begin_dequeue e)) (copy_slot _ _ refl some_left))
          (release _ _ refl))
  ]
