-- ===== src/SpscQueue/Fifo.antt =====
-- What reaches the consumer of engine/queues/SPSCQueue.hpp, in every interleaving with the producer.
use event_driven_trading_sys.Base.{
  ℕ, ◌+◌, ◌^◌, ◌≤◌, ◌<◌, ◌≡◌, refl, sym, ◌∙◌, ap, subst, [], ◌∷◌, arith, add64, u64_mod, length,
  length-append,
}
use event_driven_trading_sys.SpscQueue.{
  Queue, slot, write, Producer, Consumer, System, Step, begin_enqueue, refuse_enqueue, write_slot,
  publish, begin_dequeue, refuse_dequeue, copy_slot, release,
}
use event_driven_trading_sys.SpscQueue.Store.{
  IsStore, write_elsewhere, written_here, write-IsStore, publish-IsStore, release-IsStore,
}

module _ {ℓ} {A : Type ℓ} where
  -- What a thread's local variables say of the queue.
  abbrev OnProducer : ℕ → Queue A → Producer A → Type ℓ
  OnProducer k q Producer.idle = q ≡ q
  OnProducer k q (Producer.loaded item tail head) = (q ≡ q) × (tail ≡ q.tail) × (head ≤ q.head)
  OnProducer k q (Producer.wrote item tail) =
      (tail ≡ q.tail) × (q.tail < q.head + 2 ^ k) × (q.buffer (slot (2 ^ k) tail) ≡ item)

  abbrev OnConsumer : ℕ → Queue A → Consumer A → Type ℓ
  OnConsumer k q Consumer.idle = q ≡ q
  OnConsumer k q (Consumer.loaded head tail) = (q ≡ q) × (head ≡ q.head) × (tail ≤ q.tail)
  OnConsumer k q (Consumer.copied head out) =
      (head ≡ q.head) × (head < q.tail) × (q.buffer (slot (2 ^ k) head) ≡ out)

  pub record IsFifo (k : ℕ) (s : System A) : Type ℓ where
    pub store : IsStore k s.queue s.sent s.received
    pub on_producer : OnProducer k s.queue s.producer
    pub on_consumer : OnConsumer k s.queue s.consumer

  -- Each thread's step leaves what the other knows of the queue.
  write-OnConsumer :
      (k : ℕ) (q : Queue A) (x : A) (c : Consumer A)
      → q.tail < q.head + 2 ^ k
      → OnConsumer k q c
      → OnConsumer k (record q { buffer = write q.buffer (slot (2 ^ k) q.tail) x }) c
  write-OnConsumer k q x Consumer.idle free v = refl
  write-OnConsumer k q x (Consumer.loaded head tail) free v = (refl, v.1, v.2)
  write-OnConsumer k q x (Consumer.copied head out) free (same, left, here) =
      (same, left, write_elsewhere k head q.tail q.buffer x left (omega arith) ∙ here)

  publish-OnConsumer :
      (k : ℕ) (q : Queue A) (c : Consumer A)
      → q.tail + 1 < u64_mod
      → OnConsumer k q c
      → OnConsumer k (record q { tail = add64 q.tail 1 }) c
  publish-OnConsumer k q Consumer.idle small v = refl
  publish-OnConsumer k q (Consumer.loaded head tail) small v = (refl, v.1, omega (arith, v.2))
  publish-OnConsumer k q (Consumer.copied head out) small v = (v.0, omega (arith, v.1), v.2)

  release-OnProducer :
      (k : ℕ) (q : Queue A) (p : Producer A)
      → q.head + 1 < u64_mod
      → OnProducer k q p
      → OnProducer k (record q { head = add64 q.head 1 }) p
  release-OnProducer k q Producer.idle small v = refl
  release-OnProducer k q (Producer.loaded item tail head) small v = (refl, v.1, omega (arith, v.2))
  release-OnProducer k q (Producer.wrote item tail) small v = (v.0, omega (arith, v.1), v.2)

  pub step-IsFifo :
      (k : ℕ) (s u : System A)
      → Step (2 ^ k) s u
      → length u.sent < u64_mod
      → IsFifo k s
      → IsFifo k u
  step-IsFifo k s u (begin_enqueue item e) small v = record {
    store = v.store;
    on_producer = (refl, refl, omega arith);
    on_consumer = v.on_consumer;
  }
  step-IsFifo k s u (refuse_enqueue item tail head e full) small v = record {
    store = v.store;
    on_producer = refl;
    on_consumer = v.on_consumer;
  }
  step-IsFifo k s u (write_slot item tail head e free) small v =
      let (_, same, le) = subst (OnProducer k s.queue) e v.on_producer in
      let room : s.queue.tail < s.queue.head + 2 ^ k =
        ground (arith, v.store.count_sent, v.store.order) in
      rw same (record {
        store = write-IsStore k s.queue s.sent s.received item room v.store;
        on_producer = (refl, room, written_here k s.queue item);
        on_consumer = write-OnConsumer k s.queue item s.consumer room v.on_consumer;
      })
  step-IsFifo k s u (publish item tail e) small v =
      let (same, room, here) = subst (OnProducer k s.queue) e v.on_producer in
      let small' : s.queue.tail + 1 < u64_mod =
        omega (arith, v.store.count_sent, length-append s.sent (item ∷ [])) in
      rw same (record {
        store =
            publish-IsStore k s.queue s.sent s.received item room small'
              (ap (λ n. s.queue.buffer (slot (2 ^ k) n)) (sym same) ∙ here) v.store;
        on_producer = refl;
        on_consumer = publish-OnConsumer k s.queue s.consumer small' v.on_consumer;
      })
  step-IsFifo k s u (begin_dequeue e) small v = record {
    store = v.store;
    on_producer = v.on_producer;
    on_consumer = (refl, refl, omega arith);
  }
  step-IsFifo k s u (refuse_dequeue head tail e full) small v = record {
    store = v.store;
    on_producer = v.on_producer;
    on_consumer = refl;
  }
  step-IsFifo k s u (copy_slot head tail e some_left) small v =
      let (_, same, le) = subst (OnConsumer k s.queue) e v.on_consumer in
      record {
        store = v.store;
        on_producer = v.on_producer;
        on_consumer = (same, ground arith, refl);
      }
  step-IsFifo k s u (release head out e) small v =
      let (same, some_left, here) = subst (OnConsumer k s.queue) e v.on_consumer in
      let small' : s.queue.tail < u64_mod = omega (arith, v.store.count_sent) in
      rw same (record {
        store =
            release-IsStore k s.queue s.sent s.received out (omega arith) small'
              (ap (λ n. s.queue.buffer (slot (2 ^ k) n)) (sym same) ∙ here) v.store;
        on_producer = release-OnProducer k s.queue s.producer (omega arith) v.on_producer;
        on_consumer = refl;
      })
