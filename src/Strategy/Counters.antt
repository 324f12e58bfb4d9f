-- ===== src/Strategy/Counters.antt =====
-- What the strategies of engine/strategy let through, and what the engine counts.
use event_driven_trading_sys.Base.{
  ℕ, zero, suc, ◌+◌, ◌<◌, ◌≡◌, ◌⊎◌, refl, inl, inr, Bool, true, false, ◌&&◌, ◌||◌, ◌==◌, ltb,
  if◌then◌else◌, List, [], ◌∷◌, arith, get_or, set, replicate, length, length-set, length-replicate,
  add64, u64_mod,
}
use event_driven_trading_sys.Events.{Event, EventType, event_type}
use event_driven_trading_sys.Strategy.{
  Strategy, StrategySignal, signal, noop, StrategyEngine, on_event, make_filter, allow_all,
  filter_size, type_index, process,
}

abbrev pub is_signal : StrategySignal → Bool
is_signal signal = true
is_signal noop = false

-- One of the types has the index.
abbrev pub mentions : List EventType → ℕ → Bool
mentions [] idx = false
mentions (t ∷ ts) idx = type_index t == idx || mentions ts idx

get_or-set :
    (xs : List Bool) (i j : ℕ) (v : Bool)
    → i < length xs
    → get_or (set xs i v) j false ≡ (if i == j then v else get_or xs j false)
get_or-set [] i j v h = absurd (omega arith)
get_or-set (x ∷ xs) zero zero v h = refl
get_or-set (x ∷ xs) zero (suc j) v h = ground arith
get_or-set (x ∷ xs) (suc i) zero v h = ground arith
get_or-set (x ∷ xs) (suc i) (suc j) v h = ground (arith, get_or-set xs i j v)

allow_all-get_or :
    (ts : List EventType) (allowed : List Bool) (idx : ℕ)
    → length allowed ≡ filter_size
    → idx < filter_size
    → get_or (allow_all ts allowed) idx false ≡ (mentions ts idx || get_or allowed idx false)
unfolding allow_all
allow_all-get_or [] allowed idx h k = refl
allow_all-get_or (t ∷ ts) allowed idx h k = ground (
  arith,
  allow_all-get_or ts allowed idx h k,
  allow_all-get_or ts (set allowed (type_index t) true) idx,
  length-set allowed (type_index t) true,
  get_or-set allowed (type_index t) idx true,
)

get_or-replicate : (n i : ℕ) → get_or (replicate n false) i false ≡ false
unfolding replicate
get_or-replicate zero i = refl
get_or-replicate (suc n) zero = refl
get_or-replicate (suc n) (suc i) = get_or-replicate n i

-- An `EventTypeFilterStrategy` signals an event exactly if the low byte of the event's type is
-- below the size of the table and is the low byte of one of the allowed types.
pub on_event-make_filter :
    (ts : List EventType) (e : Event)
    → is_signal (on_event (make_filter ts) e)
      ≡ (ltb (type_index (event_type e)) filter_size && mentions ts (type_index (event_type e)))
unfolding on_event make_filter
on_event-make_filter ts e = ground (
  arith,
  allow_all-get_or ts (replicate filter_size false) (type_index (event_type e)),
  length-replicate filter_size false,
  get_or-replicate filter_size (type_index (event_type e)),
)

signal-cases : (x : StrategySignal) → (x ≡ signal) ⊎ (x ≡ noop)
signal-cases signal = inl refl
signal-cases noop = inr refl

-- A batch of events, and those that the engine forwards.
abbrev pub process_all : StrategyEngine → List Event → StrategyEngine × List Event
process_all en [] = (en, [])
process_all en (e ∷ es) =
    let (en', sig) = process en e in
    let (en'', out) = process_all en' es in (en'', if is_signal sig then e ∷ out else out)

-- The events that a strategy signals, in their order.
abbrev pub signalled : Strategy → List Event → List Event
signalled s [] = []
signalled s (e ∷ es) =
    let rest = signalled s es in if is_signal (on_event s e) then e ∷ rest else rest

-- Over a batch, with fewer than 2^64 events counted in all, the engine forwards the events that
-- its strategy signals, in their order; the signal counter grows by their number and both counters
-- together by the size of the batch; the strategy stays.
pub process_all-counts :
    (en : StrategyEngine) (es : List Event)
    → en.signal_count + en.noop_count + length es < u64_mod
    → let r = process_all en es in
      (r.1 ≡ signalled en.strategy es)
      × (r.0.signal_count ≡ en.signal_count + length r.1)
      × (r.0.signal_count + r.0.noop_count ≡ en.signal_count + en.noop_count + length es)
      × (r.0.strategy ≡ en.strategy)
unfolding process
process_all-counts en [] small = (refl, omega arith, omega arith, refl)
process_all-counts en (e ∷ es) small = elim (signal-cases (on_event en.strategy e)) [
  | inl h ↦
      ground
        (arith, h, process_all-counts (record en { signal_count = add64 en.signal_count 1 }) es)
  | inr h ↦
      ground (arith, h, process_all-counts (record en { noop_count = add64 en.noop_count 1 }) es)
]
