-- ===== src/Replay.antt =====
-- engine/replay/VectorReplayController.hpp: replay of a vector of events held in memory. The
-- name of the source plays no part and is left out.
pub mod Drain
use event_driven_trading_sys.Base.{
  ℕ, zero, suc, ◌+◌, Bool, true, false, leb, if◌then◌else◌, List, [], ◌∷◌, Option, none, some,
  length, get_or, add64,
}
use event_driven_trading_sys.Events.{Event, zero_event}

pub record VectorReplay : Type 0 where
  pub events : List Event
  pub cursor : ℕ
  pub events_replayed : ℕ

abbrev pub make_replay : List Event → VectorReplay
make_replay events = record { events = events; cursor = 0; events_replayed = 0 }

-- `none` is the answer false. The cursor is in bounds where the vector is read.
unfoldable pub next : VectorReplay → VectorReplay × Option Event
next c = if leb (length c.events) c.cursor then (c, none) else (
  record c { cursor = c.cursor + 1; events_replayed = add64 c.events_replayed 1 },
  some (get_or c.events c.cursor zero_event),
)

unfoldable pub reset : VectorReplay → VectorReplay
reset c = record c { cursor = 0; events_replayed = 0 }

unfoldable pub done : VectorReplay → Bool
done c = leb (length c.events) c.cursor
