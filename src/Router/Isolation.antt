-- ===== src/Router/Isolation.antt =====
-- The pipelines of engine/runtime/SymbolRouter.cpp do not touch one another, and their books stay
-- in order.
use event_driven_trading_sys.Base.{
  ℕ, ◌+◌, ◌≤◌, ◌<◌, ◌≡◌, ◌≢◌, refl, sym, ◌∙◌, subst, ==_iff, ap, inl, inr, Bool, true, false, ◌==◌,
  leb, if◌then◌else◌, Option, none, some, some-injective, arith, u64_mod, Bool-cases, Option-cases,
}
use event_driven_trading_sys.Events.{
  Side, Event, event_side, event_type, new_order, cancel_order, modify_order,
}
use event_driven_trading_sys.OrderBook.{level, make_book}
use event_driven_trading_sys.OrderBook.Levels.{HasRoom}
use event_driven_trading_sys.OrderBook.Inv.{InRange}
use event_driven_trading_sys.OrderBook.Ops.{IsBook, make_book-IsBook, cancel-IsBook}
use event_driven_trading_sys.OrderBook.Modify.{modify-IsBook}
use event_driven_trading_sys.Matching.{MatchOutput, empty_output, process_cancel, process_modify}
use event_driven_trading_sys.Matching.Process.{process_new_order-IsBook}
use event_driven_trading_sys.Strategy.{
  Strategy, StrategySignal, signal, noop, StrategyEngine, make_engine, on_event, counted,
}
use event_driven_trading_sys.Strategy
use event_driven_trading_sys.Router.{
  SymbolConfig, SymbolPipeline, SymbolRouter, max_symbols, default_max_orders, register_symbol,
  dispatch, run_pipeline, process, matched, gated, set_pipeline, put, routed,
}

-- Every registered book is in order.
abbrev pub IsRouter : SymbolRouter → Type 0
IsRouter r = (sid : ℕ) (p : SymbolPipeline) → r.slots sid ≡ some p → IsBook p.book

dispatch-IsBook :
    (fuel : ℕ) (p : SymbolPipeline) (e : Event)
    → IsBook p.book
    → 0 < e.quantity
    → e.quantity < u64_mod
    → ((s : Side) → InRange e.price → HasRoom (level p.book e.price s) e.quantity)
    → p.book.orders.count + 2 ≤ fuel
    → (out : MatchOutput) × (p' : SymbolPipeline) × (dispatch fuel p e ≡ some (out, p'))
      × IsBook p'.book
unfolding dispatch process_cancel process_modify
dispatch-IsBook fuel p e v pos small room enough = elim (Bool-cases (event_type e == new_order)) [
  | inl n ↦
      let (out, b', run, v') =
        process_new_order-IsBook fuel p.book e v small (room (event_side e)) enough in
      (out, record p { book = b' }, rw n (ap (matched p) run), v')
  | inr n ↦ elim (Bool-cases (event_type e == cancel_order)) [
    | inl c ↦ (
      empty_output,
      record p { book = (process_cancel p.book e).0 },
      rw (n, c) refl,
      cancel-IsBook p.book e.order_id v,
    )
    | inr c ↦ elim (Bool-cases (event_type e == modify_order)) [
      | inl m ↦ (
        empty_output,
        record p { book = (process_modify p.book e).0 },
        rw (n, c, m) refl,
        modify-IsBook p.book e.order_id e.price e.quantity v pos small (λ o f. room o.side),
      )
      | inr m ↦ (empty_output, p, rw (n, c, m) refl, v)
    ]
  ]
]

run_pipeline-IsBook :
    (fuel : ℕ) (p : SymbolPipeline) (e : Event)
    → IsBook p.book
    → 0 < e.quantity
    → e.quantity < u64_mod
    → ((s : Side) → InRange e.price → HasRoom (level p.book e.price s) e.quantity)
    → p.book.orders.count + 2 ≤ fuel
    → (out : MatchOutput) × (p' : SymbolPipeline) × (run_pipeline fuel p e ≡ some (out, p'))
      × IsBook p'.book
unfolding run_pipeline Strategy.process
run_pipeline-IsBook fuel p e v pos small room enough = go (on_event p.engine.strategy e)
  where
    go :
        (sig : StrategySignal)
        → (out : MatchOutput) × (p' : SymbolPipeline) × (gated fuel
              (record p { engine = counted p.engine sig })
              e
              sig
            ≡ some (out, p'))
          × IsBook p'.book
    go noop = (empty_output, record p { engine = counted p.engine noop }, refl, v)
    go signal =
        dispatch-IsBook fuel (record p { engine = counted p.engine signal }) e v pos small room
          enough

put_here :
    (f : ℕ → Option SymbolPipeline) (sid i : ℕ) (p : SymbolPipeline)
    → (sid == i) ≡ true
    → put f sid p i ≡ some p
put_here f sid i p h = rw h refl

put_elsewhere :
    (f : ℕ → Option SymbolPipeline) (sid i : ℕ) (p : SymbolPipeline)
    → (sid == i) ≡ false
    → put f sid p i ≡ f i
put_elsewhere f sid i p h = rw h refl

put-IsRouter :
    (r : SymbolRouter) (sid n : ℕ) (p : SymbolPipeline)
    → IsRouter r
    → IsBook p.book
    → IsRouter (record { slots = put r.slots sid p; count = n })
put-IsRouter r sid n p v w i q e = elim (Bool-cases (sid == i)) [
  | inl h ↦ subst (λ x. IsBook x.book) (some-injective p q (sym (put_here r.slots sid i p h) ∙ e)) w
  | inr h ↦ v i q (sym (put_elsewhere r.slots sid i p h) ∙ e)
]

-- On a router whose books are in order, a registration with a strategy does not throw, leaves
-- every book in order and every registered symbol as it was, and counts one more exactly if it
-- answers true.
pub register_symbol-IsRouter :
    (r : SymbolRouter) (cfg : SymbolConfig) (s : Strategy)
    → IsRouter r
    → (r' : SymbolRouter) × (added : Bool) × (register_symbol r cfg (some s) ≡ some (r', added))
      × IsRouter r'
      × ((sid : ℕ) (p : SymbolPipeline) → r.slots sid ≡ some p → r'.slots sid ≡ some p)
      × (r'.count ≡ (if added then r.count + 1 else r.count))
unfolding register_symbol make_engine
register_symbol-IsRouter r cfg s v = elim (Bool-cases (leb max_symbols cfg.symbol_id)) [
  | inl h ↦ (r, false, rw h refl, v, λ sid p e. e, refl)
  | inr h ↦ elim (Option-cases (r.slots cfg.symbol_id)) [
    | inr (p, f) ↦ (r, false, rw (h, f) refl, v, λ sid p e. e, refl)
    | inl f ↦ (
      record { slots = put r.slots cfg.symbol_id fresh; count = r.count + 1 },
      true,
      rw (h, f) refl,
      put-IsRouter r cfg.symbol_id (r.count + 1) fresh v (make_book-IsBook cfg.symbol_id 16),
      λ sid p e. put_elsewhere r.slots cfg.symbol_id sid fresh (free f sid p e) ∙ e,
      refl,
    )
  ]
]
  where
    fresh : SymbolPipeline
    fresh = record {
      book = make_book cfg.symbol_id default_max_orders 0;
      engine = record { strategy = s; signal_count = 0; noop_count = 0 };
    }

    free :
        r.slots cfg.symbol_id ≡ none
        → (sid : ℕ) (p : SymbolPipeline) → r.slots sid ≡ some p
        → (cfg.symbol_id == sid) ≡ false
    free f sid p e = elim (Bool-cases (cfg.symbol_id == sid)) [
      | inr h ↦ h
      | inl h ↦ absurd (ground (arith, ap r.slots ((==_iff cfg.symbol_id sid).0 h), f, e))
    ]

-- On a router whose books are in order, for an event of a positive 64-bit quantity, with room for
-- it on both levels of its price if that is in range in its symbol's book, and fuel for one round
-- per order of that book and two more, `process` returns, every book is in order again, and the
-- pipelines of all other symbols and the count are as they were.
pub process-IsRouter :
    (fuel : ℕ) (r : SymbolRouter) (e : Event)
    → IsRouter r
    → 0 < e.quantity
    → e.quantity < u64_mod
    → ((p : SymbolPipeline) (s : Side)
        → r.slots e.symbol_id ≡ some p
        → InRange e.price
        → HasRoom (level p.book e.price s) e.quantity)
    → ((p : SymbolPipeline) → r.slots e.symbol_id ≡ some p → p.book.orders.count + 2 ≤ fuel)
    → (out : MatchOutput) × (r' : SymbolRouter) × (process fuel r e ≡ some (out, r'))
      × IsRouter r'
      × ((sid : ℕ) → e.symbol_id ≢ sid → r'.slots sid ≡ r.slots sid)
      × (r'.count ≡ r.count)
unfolding process
process-IsRouter fuel r e v pos small room enough =
    elim (Bool-cases (leb max_symbols e.symbol_id)) [
      | inl h ↦ (empty_output, r, rw h refl, v, λ sid ne. refl, refl)
      | inr h ↦ elim (Option-cases (r.slots e.symbol_id)) [
        | inl f ↦ (empty_output, r, rw (h, f) refl, v, λ sid ne. refl, refl)
        | inr (p, f) ↦
            let (out, p', run, w) =
              run_pipeline-IsBook fuel p e (v e.symbol_id p f) pos small (λ s. room p s f)
                (enough p f) in
            (
              out,
              set_pipeline r e.symbol_id p',
              rw (h, f) (ap (routed r e.symbol_id) run),
              put-IsRouter r e.symbol_id r.count p' v w,
              λ sid ne. put_elsewhere r.slots e.symbol_id sid p' (ground arith),
              refl,
            )
      ]
    ]
