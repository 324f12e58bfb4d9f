-- ===== src/Events.antt =====
-- engine/events/Event.hpp: the event that every part of the engine exchanges, its packed `type`
-- word and its constructors. A `uint64_t` or `uint32_t` field is a number; its range is stated
-- where a theorem needs it.
pub mod Codec
use event_driven_trading_sys.Base.{
  ℕ, ◌*◌, ◌/◌, ◌%◌, ◌^◌, bit_or, Bool, true, false, ◌==◌, if◌then◌else◌,
}

-- `enum class EventType : uint32_t` holds any 32-bit value, so it is that number.
abbrev pub EventType : Type 0
EventType = ℕ

abbrev pub new_order : EventType
new_order = 1

abbrev pub cancel_order : EventType
cancel_order = 2

abbrev pub modify_order : EventType
modify_order = 3

abbrev pub market_update : EventType
market_update = 4

abbrev pub trade_execution : EventType
trade_execution = 5

pub data Side : Type 0 where
  bid ask : Side

abbrev pub side_code : Side → ℕ
side_code bid = 0
side_code ask = 1

-- `static_cast<Side>` of one bit.
abbrev pub side_of_bit : ℕ → Side
side_of_bit b = if b == 0 then bid else ask

-- `side == Side::Bid`
abbrev pub is_bid : Side → Bool
is_bid bid = true
is_bid ask = false

pub record Event : Type 0 where
  pub timestamp : ℕ
  pub symbol_id : ℕ
  pub type : ℕ
  pub price : ℕ
  pub quantity : ℕ
  pub order_id : ℕ
  pub sequence : ℕ
  pub reserved : ℕ

-- `Event{}`
abbrev pub zero_event : Event
zero_event = record {
  timestamp = 0;
  symbol_id = 0;
  type = 0;
  price = 0;
  quantity = 0;
  order_id = 0;
  sequence = 0;
  reserved = 0;
}

-- `e.type & 0xFFFF`
unfoldable pub event_type : Event → EventType
event_type e = e.type % 2 ^ 16

-- `(e.type >> 16) & 1`
unfoldable pub event_side : Event → Side
event_side e = side_of_bit (e.type / 2 ^ 16 % 2)

unfoldable pub encode_type : EventType → Side → ℕ
encode_type t s = bit_or t (side_code s * 2 ^ 16)

unfoldable pub make_new_order : ℕ → ℕ → ℕ → ℕ → ℕ → Side → Event
make_new_order timestamp symbol_id order_id price quantity side = record zero_event {
  timestamp = timestamp;
  symbol_id = symbol_id;
  type = encode_type new_order side;
  price = price;
  quantity = quantity;
  order_id = order_id;
}

unfoldable pub make_cancel_order : ℕ → ℕ → ℕ → Event
make_cancel_order timestamp symbol_id order_id = record zero_event {
  timestamp = timestamp;
  symbol_id = symbol_id;
  type = encode_type cancel_order bid;
  order_id = order_id;
}

unfoldable pub make_modify_order : ℕ → ℕ → ℕ → ℕ → ℕ → Side → Event
make_modify_order timestamp symbol_id order_id new_price new_quantity side = record zero_event {
  timestamp = timestamp;
  symbol_id = symbol_id;
  type = encode_type modify_order side;
  price = new_price;
  quantity = new_quantity;
  order_id = order_id;
}

unfoldable pub make_market_update : ℕ → ℕ → ℕ → ℕ → Event
make_market_update timestamp symbol_id price quantity = record zero_event {
  timestamp = timestamp;
  symbol_id = symbol_id;
  type = encode_type market_update bid;
  price = price;
  quantity = quantity;
}

unfoldable pub make_trade_execution : ℕ → ℕ → ℕ → ℕ → ℕ → Event
make_trade_execution timestamp symbol_id order_id price quantity = record zero_event {
  timestamp = timestamp;
  symbol_id = symbol_id;
  type = encode_type trade_execution bid;
  price = price;
  quantity = quantity;
  order_id = order_id;
}
