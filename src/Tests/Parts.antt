-- ===== src/Tests/Parts.antt =====
-- The theorems about the queue, the pool, the strategies, the replay and the router at concrete inputs.
use event_driven_trading_sys.Base.{
  replicate, ℕ, ◌+◌, ◌≤◌, ◌<◌, ◌≡◌, ◌≢◌, ◌⊎◌, inl, inr, Bool-cases, some-injective, sym, subst, ap,
  ◌∙◌, refl, ◌==◌, if◌then◌else◌, List, [], ◌∷◌, none, some, arith, take, length, u64_mod,
}
use event_driven_trading_sys.OrderBook.{level}
use event_driven_trading_sys.OrderBook.Levels.{HasRoom}
use event_driven_trading_sys.Events.{Event, new_order, make_new_order, make_cancel_order}
use event_driven_trading_sys.OrderBook.Ops.{IsBook}
use event_driven_trading_sys.Matching.{MatchOutput}
use event_driven_trading_sys.PriceLevel.Laws.{remove_first, occurs}
use event_driven_trading_sys.SpscQueue.{System, Steps, init, enqueue, Producer}
use event_driven_trading_sys.SpscQueue.Schedule.{Steps-received, enqueue-Steps}
use event_driven_trading_sys.ObjectPool.{ObjectPool, make, allocate, release}
use event_driven_trading_sys.ObjectPool.Laws.{IsPool, make-IsPool, allocate-IsPool, release-IsPool}
use event_driven_trading_sys.Strategy.{StrategyEngine, pass_through, make_filter}
use event_driven_trading_sys.LatencyHistogram.{
  empty_histogram, record_sample, bucket_index, representative,
}
use event_driven_trading_sys.LatencyHistogram.Buckets.{
  IsHistogram, record_sample-IsHistogram, representative-bucket_index,
}
use event_driven_trading_sys.Router.{SymbolRouter, SymbolPipeline, process}
use event_driven_trading_sys.Router.Isolation.{IsRouter, process-IsRouter}
use event_driven_trading_sys.Tests.{book, book-IsBook, book-count, room_in_book, buyer}

-- A queue of four, and the same after one call of `enqueue`.
abbrev empty_system : System ℕ
empty_system = init 0

abbrev sent_one : System ℕ
sent_one = record empty_system {
  queue = (enqueue 4 empty_system.queue 9).0;
  producer = Producer.idle;
  sent = if (enqueue 4 empty_system.queue 9).1 then 9 ∷ [] else [];
}

sent_one-Steps : Steps 4 empty_system sent_one
sent_one-Steps = enqueue-Steps 4 empty_system 9 refl

sent_one-small : length sent_one.sent < u64_mod
unfolding enqueue
sent_one-small = omega arith

Steps-received_example :
    (sent_one.received ≡ take (length sent_one.received) sent_one.sent)
    × (length sent_one.received ≤ length sent_one.sent)
    × (length sent_one.sent ≤ length sent_one.received + 4)
Steps-received_example = Steps-received 2 0 sent_one sent_one-Steps sent_one-small

-- A pool of two, of which the slot 1 is held.
abbrev pool : ObjectPool
pool = record { capacity = 2; free_list = 0 ∷ 1 ∷ []; top = 1; exhaustion_count = 0 }

abbrev held : List ℕ
held = 1 ∷ []

pool-IsPool : IsPool pool held
pool-IsPool = record { sized = refl; fits = omega arith; owned = λ i. ground arith }

allocate-IsPool_example :
    (((allocate pool).1 ≡ none)
      × (length held ≡ pool.capacity)
      × IsPool (allocate pool).0 held
      × ((allocate pool).0.exhaustion_count ≡ pool.exhaustion_count + 1))
    ⊎ ((x : ℕ) × ((allocate pool).1 ≡ some x)
        × (x < pool.capacity)
        × (occurs x held ≡ 0)
        × IsPool (allocate pool).0 (x ∷ held))
allocate-IsPool_example = allocate-IsPool pool held pool-IsPool

release-IsPool_example :
    (q : ObjectPool) × (release pool 1 ≡ some q) × IsPool q (remove_first 1 held)
release-IsPool_example = release-IsPool pool held 1 pool-IsPool (omega arith)

make-IsPool_example : IsPool (make 3) []
make-IsPool_example = make-IsPool 3

abbrev orders_only : StrategyEngine
orders_only = record { strategy = make_filter (new_order ∷ []); signal_count = 0; noop_count = 0 }

abbrev batch : List Event
batch = buyer ∷ make_cancel_order 8 1 3 ∷ []

-- A router with the book of the tests under the symbol 1.
abbrev pipeline : SymbolPipeline
pipeline = record {
  book = book;
  engine = record { strategy = pass_through; signal_count = 0; noop_count = 0 };
}

abbrev router : SymbolRouter
router = record { slots = λ i. if 1 == i then some pipeline else none; count = 1 }

only_pipeline : (i : ℕ) (p : SymbolPipeline) → router.slots i ≡ some p → p.book ≡ book
only_pipeline i p e = elim (Bool-cases (1 == i)) [
  | inl h ↦ sym (ap (λ x. x.book) (some-injective pipeline p (sym (rw h refl) ∙ e)))
  | inr h ↦ absurd (ground (arith, h, e))
]

router-IsRouter : IsRouter router
router-IsRouter i p e = subst IsBook (sym (only_pipeline i p e)) book-IsBook

buyer-facts : (0 < buyer.quantity) × (buyer.quantity < 100)
unfolding make_new_order
buyer-facts = omega arith

process-IsRouter_example :
    (out : MatchOutput) × (r : SymbolRouter) × (process 3 router buyer ≡ some (out, r))
    × IsRouter r
    × ((sid : ℕ) → buyer.symbol_id ≢ sid → r.slots sid ≡ router.slots sid)
    × (r.count ≡ 1)
process-IsRouter_example =
    process-IsRouter 3 router buyer router-IsRouter buyer-facts.0 (omega (arith, buyer-facts))
      (λ p s e r.
        subst (λ b. HasRoom (level b buyer.price s) buyer.quantity)
          (sym (only_pipeline buyer.symbol_id p e))
          (room_in_book buyer.price buyer.quantity s buyer-facts.1))
      (λ p e.
        subst (λ b. b.orders.count + 2 ≤ 3) (sym (only_pipeline buyer.symbol_id p e))
          (omega (arith, book-count)))

record_sample-IsHistogram_example :
    IsHistogram (record_sample empty_histogram 700)
    × ((record_sample empty_histogram 700).total ≡ 0 + 1)
    × (0 ≤ (record_sample empty_histogram 700).max)
    × (700 ≤ (record_sample empty_histogram 700).max)
unfolding replicate
record_sample-IsHistogram_example =
    record_sample-IsHistogram empty_histogram 700 (omega arith)
      (record { sized = refl; counted = refl })

representative-bucket_index_example : representative (bucket_index 700) < 700
representative-bucket_index_example = representative-bucket_index 700 (omega arith) (omega arith)
