-- ===== src/FileReplay.antt =====
-- engine/replay/SequentialReplayController.hpp and SequentialReplayController.cpp: replay of the rows
-- of a CSV file. A file is the list of its lines, a line the list of its character codes; `none` in
-- place of a file is one that cannot be opened.
pub mod Rows
pub mod Drain
use event_driven_trading_sys.Base.{
  ℕ, zero, suc, ◌+◌, ◌%◌, Bool, true, false, not, ◌==◌, ltb, leb, if◌then◌else◌, List, [], ◌∷◌,
  Option, none, some, get_or, add64,
}
use event_driven_trading_sys.Events.{Event, zero_event, encode_type, side_of_bit}
use event_driven_trading_sys.Text.{is_digit, scan_fields}

pub record FileReplay : Type 0 where
  pub file : List (List ℕ)
  pub events_replayed : ℕ
  pub last_timestamp : ℕ
  pub out_of_order_count : ℕ
  pub done : Bool

-- The constructor and `open_file`; `none` is the exception.
unfoldable pub make_replay : Option (List (List ℕ)) → Option FileReplay
make_replay none = none
make_replay (some lines) = some (record {
  file = lines;
  events_replayed = 0;
  last_timestamp = 0;
  out_of_order_count = 0;
  done = false;
})

-- `open_file` comes first: if it throws, the counters are as they were.
unfoldable pub reset : Option (List (List ℕ)) → FileReplay → Option FileReplay
unfolding make_replay
reset contents c = make_replay contents

-- The widths of the fields of a row.
abbrev pub field_widths : List ℕ
field_widths = 64 ∷ 32 ∷ 32 ∷ 64 ∷ 64 ∷ 64 ∷ 32 ∷ []

-- The side is the seventh field, and 0 if it is not there.
unfoldable pub event_of_fields : List ℕ → Option Event
event_of_fields (timestamp ∷ symbol_id ∷ kind ∷ price ∷ quantity ∷ order_id ∷ more) =
    let out : Option Event = some (record zero_event {
      timestamp = timestamp;
      symbol_id = symbol_id;
      type = encode_type kind (side_of_bit (get_or more 0 0 % 2));
      price = price;
      quantity = quantity;
      order_id = order_id;
    }) in
    if ltb kind 1 then none else if ltb 5 kind then none else out
event_of_fields _ = none

unfoldable pub parse_line : List ℕ → Option Event
unfolding event_of_fields
parse_line line = event_of_fields (scan_fields field_widths line)

-- `if (!line.empty() && line.back() == '\r') line.pop_back();`
unfoldable pub strip_return : List ℕ → List ℕ
strip_return [] = []
strip_return (c ∷ []) = if c == 13 then [] else c ∷ []
strip_return (c ∷ d ∷ s) = c ∷ strip_return (d ∷ s)

-- A blank line, a comment and a line that starts with another character than a digit are skipped.
abbrev pub parse_row : List ℕ → Option Event
parse_row [] = none
parse_row (c ∷ s) = if c == 35 then none else if not (is_digit c) then none else parse_line (c ∷ s)

-- The body of the loop over `getline`: `none` is `continue`.
unfoldable pub read_line : List ℕ → Option Event
unfolding strip_return
read_line line = parse_row (strip_return line)

-- The loop over `getline`: the event, and the lines behind it.
unfoldable pub next_row : List (List ℕ) → Option (Event × List (List ℕ))
unfolding read_line
next_row [] = none
next_row (line ∷ lines) = elim (read_line line) [
  | none ↦ next_row lines
  | some out ↦ some (out, lines)
]

abbrev pub count_row : FileReplay → Event → List (List ℕ) → FileReplay
count_row c out lines = record c {
  file = lines;
  out_of_order_count =
      if ltb out.timestamp c.last_timestamp
      then add64 c.out_of_order_count 1
      else c.out_of_order_count;
  last_timestamp = out.timestamp;
  events_replayed = add64 c.events_replayed 1;
}

abbrev pub step_row : FileReplay → Option (Event × List (List ℕ)) → FileReplay × Option Event
step_row c none = (record c { file = []; done = true }, none)
step_row c (some (out, lines)) = (count_row c out lines, some out)

-- `none` is the answer false.
unfoldable pub next : FileReplay → FileReplay × Option Event
unfolding next_row
next c = if c.done then (c, none) else step_row c (next_row c.file)

abbrev pub had_out_of_order_timestamps : FileReplay → Bool
had_out_of_order_timestamps c = ltb 0 c.out_of_order_count
