-- ===== src/Matching/OrderId.antt =====
-- The order id of engine/matching/MatchingEngine.hpp: the participant above 48 bits of sequence.
use event_driven_trading_sys.Base.{ℕ, ◌%◌, ◌^◌, ◌<◌, ◌≡◌, ◌≢◌, ◌↔◌, true, arith, bit_or_fields}
use event_driven_trading_sys.Matching.{participant_of, make_order_id, is_self_trade}

-- The participant and the low 48 bits of the sequence are read back from an order id that
-- `make_order_id` packed from a 16-bit participant.
pub participant_of-make_order_id :
    (p s : ℕ)
    → p < 2 ^ 16
    → (participant_of (make_order_id p s) ≡ p) × (make_order_id p s % 2 ^ 48 ≡ s % 2 ^ 48)
unfolding participant_of make_order_id
participant_of-make_order_id p s h = omega (arith, bit_or_fields 48 p (s % 2 ^ 48) (omega arith))

-- Two order ids packed from 16-bit participants trade with themselves exactly when they have the
-- same participant and it is not the anonymous participant 0.
pub is_self_trade_iff :
    (p q s t : ℕ)
    → p < 2 ^ 16
    → q < 2 ^ 16
    → (is_self_trade (make_order_id p s) (make_order_id q t) ≡ true) ↔ ((p ≡ q) × (p ≢ 0))
unfolding is_self_trade
is_self_trade_iff p q s t h k =
    ground (arith, participant_of-make_order_id p s, participant_of-make_order_id q t)
