-- ===== src/Strategy.antt =====
-- engine/strategy/Strategy.hpp, StrategyEngine.hpp and StrategyEngine.cpp: the strategies, and the
-- engine that runs one and counts what it decided.
pub mod Counters
use event_driven_trading_sys.Base.{
  ℕ, zero, suc, ◌+◌, ◌*◌, ◌%◌, ◌^◌, Bool, true, false, ltb, if◌then◌else◌, List, [], ◌∷◌, Option,
  none, some, get_or, set, replicate, add64,
}
use event_driven_trading_sys.Events.{Event, EventType, event_type}

pub data StrategySignal : Type 0 where
  signal noop : StrategySignal

-- The implementations of the interface; `event_type_filter` holds its table.
pub data Strategy : Type 0 where
  pass_through : Strategy
  null_strategy : Strategy
  event_type_filter : (allowed : List Bool) → Strategy

abbrev pub filter_size : ℕ
filter_size = 8

-- `static_cast<uint8_t>(type)`
abbrev pub type_index : EventType → ℕ
type_index t = t % 2 ^ 8

-- The loop of the constructor of `EventTypeFilterStrategy`.
unfoldable pub allow_all : List EventType → List Bool → List Bool
allow_all [] allowed = allowed
allow_all (t ∷ ts) allowed =
    let idx = type_index t in
    allow_all ts (if ltb idx filter_size then set allowed idx true else allowed)

unfoldable pub make_filter : List EventType → Strategy
unfolding allow_all replicate
make_filter ts = event_type_filter (allow_all ts (replicate filter_size false))

-- `idx < kSize && allowed_[idx]`: outside the table the filter is not asked.
abbrev pub is_allowed : List Bool → ℕ → Bool
is_allowed allowed idx = if ltb idx filter_size then get_or allowed idx false else false

unfoldable pub on_event : Strategy → Event → StrategySignal
on_event pass_through e = signal
on_event null_strategy e = noop
on_event (event_type_filter allowed) e =
    if is_allowed allowed (type_index (event_type e)) then signal else noop

pub record StrategyEngine : Type 0 where
  pub strategy : Strategy
  pub signal_count : ℕ
  pub noop_count : ℕ

-- The constructor; `none` is the exception for a null strategy.
unfoldable pub make_engine : Option Strategy → Option StrategyEngine
make_engine none = none
make_engine (some s) = some (record { strategy = s; signal_count = 0; noop_count = 0 })

abbrev pub counted : StrategyEngine → StrategySignal → StrategyEngine
counted en signal = record en { signal_count = add64 en.signal_count 1 }
counted en noop = record en { noop_count = add64 en.noop_count 1 }

unfoldable pub process : StrategyEngine → Event → StrategyEngine × StrategySignal
process en e = let sig = on_event en.strategy e in (counted en sig, sig)

unfoldable pub set_strategy : StrategyEngine → Option Strategy → Option StrategyEngine
set_strategy en none = none
set_strategy en (some s) = some (record en { strategy = s })

unfoldable pub reset_counters : StrategyEngine → StrategyEngine
reset_counters en = record en { signal_count = 0; noop_count = 0 }
