-- ===== src/DashboardMain/Room.antt =====
-- When the matching engine gets through a list of events: every level has room for all that can come to
-- it.
use event_driven_trading_sys.Base.{
  ℕ, ◌+◌, ◌≤◌, ◌<◌, ◌≡◌, refl, ◌==◌, if◌then◌else◌, List, [], ◌∷◌, Option, none, some, length,
  arith, ap, ◌∙◌, u64_mod,
}
use event_driven_trading_sys.Events.{Event, Side, bid, ask, event_side}
use event_driven_trading_sys.OrderMap
use event_driven_trading_sys.PriceLevel.{max_orders, empty_level}
use event_driven_trading_sys.OrderBook.{OrderBook, cancel, modify, level, make_book}
use event_driven_trading_sys.OrderBook.Inv.{InRange}
use event_driven_trading_sys.OrderBook.Levels.{HasRoom}
use event_driven_trading_sys.OrderBook.Modify.{modify-IsBook}
use event_driven_trading_sys.OrderBook.Ops.{IsBook, make_book-IsBook, cancel-IsBook}
use event_driven_trading_sys.Matching.Growth.{
  Grows, same-Grows, cancel-Grows, modify-Grows, process_new_order-Grows,
}
use event_driven_trading_sys.ReplayLoop.Engine.{
  Request, place, take_back, change, nothing, request_of, with_events, serve, engine_step,
}

abbrev pub after_step :
    (OrderBook → Option OrderBook) → Option (OrderBook × List Event) → Option OrderBook
after_step rest none = none
after_step rest (some (book, events)) = rest book

-- The matching engine alone over a list of events.
abbrev pub engine_all : ℕ → List Event → OrderBook → Option OrderBook
engine_all fuel [] book = some book
engine_all fuel (e ∷ es) book = after_step (engine_all fuel es) (engine_step fuel book e)

-- How many events name a price, and the sum of their quantities.
abbrev pub arrivals : ℕ → List Event → ℕ
arrivals p [] = 0
arrivals p (e ∷ es) = (if e.price == p then 1 else 0) + arrivals p es

abbrev pub quantities : List Event → ℕ
quantities [] = 0
quantities (e ∷ es) = e.quantity + quantities es

-- A modify asks for a quantity.
abbrev pub AsksFor : Request → ℕ → Type 0
AsksFor place quantity = Unit
AsksFor take_back quantity = Unit
AsksFor change quantity = 0 < quantity
AsksFor nothing quantity = Unit

abbrev pub AllPositive : List Event → Type 0
AllPositive [] = Unit
AllPositive (e ∷ es) = AsksFor (request_of e) e.quantity × AllPositive es

-- A book in order with room on every level for all that can come to it.
pub record Fits (fuel : ℕ) (es : List Event) (b : OrderBook) : Type 0 where
  pub book : IsBook b
  pub positive : AllPositive es
  pub slots : (s : Side) (p : ℕ) → InRange p → (level b p s).count + arrivals p es ≤ max_orders
  pub sums : (s : Side) (p : ℕ) → InRange p → (level b p s).total_quantity + quantities es < u64_mod
  pub small : quantities es < u64_mod
  pub enough : b.orders.count + length es + 2 ≤ fuel

grown-Fits :
    (fuel : ℕ) (e : Event) (es : List Event) (b c : OrderBook)
    → Fits fuel (e ∷ es) b
    → IsBook c
    → Grows e.price e.quantity b c
    → Fits fuel es c
grown-Fits fuel e es b c f v g = record {
  book = v;
  positive = f.positive.1;
  slots = λ s p r. omega (arith, f.slots s p r, g.ids s p r);
  sums = λ s p r. omega (arith, f.sums s p r, g.sums s p r);
  small = omega (arith, f.small);
  enough = omega (arith, f.enough, g.orders);
}

first_room :
    (fuel : ℕ) (e : Event) (es : List Event) (b : OrderBook) (s : Side)
    → Fits fuel (e ∷ es) b
    → InRange e.price
    → HasRoom (level b e.price s) e.quantity
first_room fuel e es b s f r = record {
  slot = ground (arith, f.slots s e.price r);
  no_wrap = omega (arith, f.sums s e.price r);
}

-- A step of the engine returns, and leaves room for the rest.
pub record Stepped (fuel : ℕ) (es : List Event) (r : Option (OrderBook × List Event)) : Type 0 where
  pub book : OrderBook
  pub events : List Event
  pub returns : r ≡ some (book, events)
  pub fits : Fits fuel es book

serve-Stepped :
    (fuel : ℕ) (e : Event) (es : List Event) (b : OrderBook) (r : Request)
    → AsksFor r e.quantity
    → Fits fuel (e ∷ es) b
    → Stepped fuel es (serve fuel b e r)
serve-Stepped fuel e es b place pos f =
    let (out, c, run, v, g) =
      process_new_order-Grows fuel b e f.book (omega (arith, f.small))
        (first_room fuel e es b (event_side e) f) (omega (arith, f.enough)) in
    record {
      book = c;
      events = out.events;
      returns = ap with_events run;
      fits = grown-Fits fuel e es b c f v g;
    }
serve-Stepped fuel e es b take_back pos f = record {
  book = (cancel b e.order_id).0;
  events = [];
  returns = refl;
  fits =
      grown-Fits fuel e es b _ f (cancel-IsBook b e.order_id f.book)
        (cancel-Grows b e.order_id e.price e.quantity f.book);
}
serve-Stepped fuel e es b change pos f = record {
  book = (modify b e.order_id e.price e.quantity).0;
  events = [];
  returns = refl;
  fits =
      grown-Fits fuel e es b _ f
        (modify-IsBook b e.order_id e.price e.quantity f.book pos (omega (arith, f.small))
          (λ o found r. first_room fuel e es b o.side f r))
        (modify-Grows b e.order_id e.price e.quantity f.book);
}
serve-Stepped fuel e es b nothing pos f = record {
  book = b;
  events = [];
  returns = refl;
  fits = grown-Fits fuel e es b b f f.book (same-Grows e.price e.quantity b);
}

pub engine_all-returns :
    (fuel : ℕ) (es : List Event) (b : OrderBook)
    → Fits fuel es b
    → (last : OrderBook) × (engine_all fuel es b ≡ some last) × IsBook last
engine_all-returns fuel [] b f = (b, refl, f.book)
engine_all-returns fuel (e ∷ es) b f =
    let k = serve-Stepped fuel e es b (request_of e) f.positive.0 f in
    let (last, run, v) = engine_all-returns fuel es k.book k.fits in
    (last, ap (after_step (engine_all fuel es)) k.returns ∙ run, v)

-- The book that `main` starts with.
abbrev pub first_book : OrderBook
first_book = make_book 1 65_536 0

level-first_book : (p : ℕ) (s : Side) → level first_book p s ≡ empty_level
unfolding make_book level
level-first_book p bid = refl
level-first_book p ask = refl

no_orders : first_book.orders.count ≡ 0
unfolding make_book OrderMap.make
no_orders = refl

pub first_book-Fits :
    (fuel : ℕ) (es : List Event)
    → AllPositive es
    → ((p : ℕ) → arrivals p es ≤ max_orders)
    → quantities es < u64_mod
    → length es + 2 ≤ fuel
    → Fits fuel es first_book
unfolding empty_level
first_book-Fits fuel es pos few small enough = record {
  book = make_book-IsBook 1 16;
  positive = pos;
  slots = λ s p r. rw (level-first_book p s) (omega (arith, few p));
  sums = λ s p r. rw (level-first_book p s) (omega (arith, small));
  small = small;
  enough = omega (arith, enough, no_orders);
}
