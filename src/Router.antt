-- ===== src/Router.antt =====
-- engine/runtime/SymbolRouter.hpp and SymbolRouter.cpp: one book and one strategy per symbol, in a
-- table indexed by the symbol id. The table is a function; it is only read below `kMaxSymbols`.
pub mod Isolation
use event_driven_trading_sys.Base.{
  ℕ, zero, suc, ◌+◌, ◌^◌, Bool, true, false, ◌==◌, leb, if◌then◌else◌, Option, none, some,
}
use event_driven_trading_sys.Events.{Event, event_type, new_order, cancel_order, modify_order}
use event_driven_trading_sys.OrderBook.{OrderBook, make_book}
use event_driven_trading_sys.Matching.{
  MatchOutput, empty_output, process_new_order, process_cancel, process_modify,
}
use event_driven_trading_sys.Strategy.{
  Strategy, StrategySignal, signal, noop, StrategyEngine, make_engine,
}
use event_driven_trading_sys.Strategy

pub record SymbolConfig : Type 0 where
  pub symbol_id : ℕ
  pub base_price : ℕ
  pub tick_shift : ℕ
  pub price_levels : ℕ

pub record SymbolPipeline : Type 0 where
  pub book : OrderBook
  pub engine : StrategyEngine

abbrev pub max_symbols : ℕ
max_symbols = 256

-- `OrderBook::DEFAULT_MAX_ORDERS`
abbrev pub default_max_orders : ℕ
default_max_orders = 65536

pub record SymbolRouter : Type 0 where
  pub slots : ℕ → Option SymbolPipeline
  pub count : ℕ

abbrev pub empty_router : SymbolRouter
empty_router = record { slots = λ _. none; count = 0 }

abbrev pub put : (ℕ → Option SymbolPipeline) → ℕ → SymbolPipeline → ℕ → Option SymbolPipeline
put f i p j = if i == j then some p else f j

-- What `new` makes of the strategy engine: `none` is the exception for a null strategy.
abbrev pub add_pipeline :
    SymbolRouter → SymbolConfig → Option StrategyEngine → Option (SymbolRouter × Bool)
add_pipeline r cfg none = none
add_pipeline r cfg (some en) = some (
  record {
    slots =
        put r.slots cfg.symbol_id
          (record { book = make_book cfg.symbol_id default_max_orders 0; engine = en });
    count = r.count + 1;
  },
  true,
)

abbrev pub register_free :
    SymbolRouter
    → SymbolConfig
    → Option Strategy
    → Option SymbolPipeline
    → Option (SymbolRouter × Bool)
register_free r cfg strategy (some p) = some (r, false)
register_free r cfg strategy none = add_pipeline r cfg (make_engine strategy)

unfoldable pub register_symbol :
    SymbolRouter → SymbolConfig → Option Strategy → Option (SymbolRouter × Bool)
unfolding make_engine
register_symbol r cfg strategy =
    if leb max_symbols cfg.symbol_id
    then some (r, false)
    else register_free r cfg strategy (r.slots cfg.symbol_id)

abbrev pub set_pipeline : SymbolRouter → ℕ → SymbolPipeline → SymbolRouter
set_pipeline r sid p = record r { slots = put r.slots sid p }

abbrev pub matched :
    SymbolPipeline → Option (MatchOutput × OrderBook) → Option (MatchOutput × SymbolPipeline)
matched p none = none
matched p (some (out, b)) = some (out, record p { book = b })

-- What the matcher of one pipeline does with an event that the strategy signalled.
unfoldable pub dispatch : ℕ → SymbolPipeline → Event → Option (MatchOutput × SymbolPipeline)
unfolding event_type process_new_order process_cancel process_modify
dispatch fuel p event =
    let etype = event_type event in
    if etype == new_order
    then matched p (process_new_order fuel p.book event)
    else if etype == cancel_order
    then some (empty_output, record p { book = (process_cancel p.book event).0 })
    else if etype == modify_order
    then some (empty_output, record p { book = (process_modify p.book event).0 })
    else some (empty_output, p)

abbrev pub gated :
    ℕ → SymbolPipeline → Event → StrategySignal → Option (MatchOutput × SymbolPipeline)
gated fuel p event noop = some (empty_output, p)
gated fuel p event signal = dispatch fuel p event

-- The strategy, then the matcher, of one pipeline.
unfoldable pub run_pipeline : ℕ → SymbolPipeline → Event → Option (MatchOutput × SymbolPipeline)
unfolding Strategy.process
run_pipeline fuel p event =
    let (en, sig) = Strategy.process p.engine event in
    gated fuel (record p { engine = en }) event sig

abbrev pub routed :
    SymbolRouter → ℕ → Option (MatchOutput × SymbolPipeline) → Option (MatchOutput × SymbolRouter)
routed r sid none = none
routed r sid (some (out, p)) = some (out, set_pipeline r sid p)

abbrev pub process_slot :
    ℕ → SymbolRouter → Event → Option SymbolPipeline → Option (MatchOutput × SymbolRouter)
process_slot fuel r event none = some (empty_output, r)
process_slot fuel r event (some p) = routed r event.symbol_id (run_pipeline fuel p event)

-- `none` means that the fuel of the matching loop ran out.
unfoldable pub process : ℕ → SymbolRouter → Event → Option (MatchOutput × SymbolRouter)
unfolding run_pipeline
process fuel r event =
    if leb max_symbols event.symbol_id
    then some (empty_output, r)
    else process_slot fuel r event (r.slots event.symbol_id)
