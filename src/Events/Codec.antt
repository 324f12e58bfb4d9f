-- ===== src/Events/Codec.antt =====
-- The two fields of the packed `type` word of engine/events/Event.hpp.
use event_driven_trading_sys.Base.{◌*◌, ◌+◌, ◌^◌, ◌<◌, ◌≡◌, ◌∙◌, arith}
use event_driven_trading_sys.Base.{bit_or_comm, bit_or_fields}
use event_driven_trading_sys.Events.{
  EventType, Side, bid, ask, side_code, Event, event_type, event_side, encode_type,
}

pub encode_type-sum :
    (t : EventType) (s : Side) → t < 2 ^ 16 → encode_type t s ≡ t + side_code s * 2 ^ 16
unfolding encode_type
encode_type-sum t s h =
    bit_or_comm t (side_code s * 2 ^ 16) ∙ (omega (arith, bit_or_fields 16 (side_code s) t h))

-- A `type` word made by `encode_type` from a 16-bit event type gives back the event type and the
-- side, whatever the other fields of the event are.
pub event_type-encode_type :
    (e : Event) (t : EventType) (s : Side)
    → t < 2 ^ 16
    → e.type ≡ encode_type t s
    → (event_type e ≡ t) × (event_side e ≡ s)
unfolding event_type event_side
event_type-encode_type e t bid h p = ground (arith, encode_type-sum t bid h)
event_type-encode_type e t ask h p = ground (arith, encode_type-sum t ask h)
