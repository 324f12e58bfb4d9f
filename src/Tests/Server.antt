-- ===== src/Tests/Server.antt =====
-- The theorems about the dashboard server at concrete inputs.
use Prim.Native.String.{String}
use event_driven_trading_sys.Base.{
  ℕ, ◌≡◌, ap, refl, Bool, true, false, List, [], ◌∷◌, Option, none, some, if◌then◌else◌, length,
}
use event_driven_trading_sys.Text.{codes}
use event_driven_trading_sys.BenchmarkMain.{same_text}
use event_driven_trading_sys.SnapshotPublisher.{EngineSnapshot, new_snapshot, push_trade}
use event_driven_trading_sys.DashboardServer.{
  Json, DashboardServer, new_server, begin_run, listen, check_running, wake_up, stop, run_deferred,
  snapshot_json, to_json,
}
use event_driven_trading_sys.DashboardServer.Reader.{Reader, Reads, value_of, read_snapshot}
use event_driven_trading_sys.DashboardServer.Fields.{read_snapshot-to_json}
use event_driven_trading_sys.DashboardServer.Life.{
  Steps, IsServer, count_of, fresh, begins, listens, checks, wakes, stops, loops,
}
use event_driven_trading_sys.DashboardServer.Schedule.{Steps-IsServer}
use event_driven_trading_sys.DashboardServer.Stop.{drain, stop-closes}
use event_driven_trading_sys.Tests.{buyer}

-- JSON with numbers in place of `double`.
mutual
  data Value : Type 0 where
    number_value : ℕ → Value
    boolean_value : Bool → Value
    text_value : List ℕ → Value
    array_value : Values → Value
    object_value : Members → Value

  data Values : Type 0 where
    no_values : Values
    values : Value → Values → Values

  data Members : Type 0 where
    no_members : Members
    member : String → Value → Members → Members

abbrev of_values : List Value → Values
of_values [] = no_values
of_values (v ∷ vs) = values v (of_values vs)

abbrev to_values : Values → List Value
to_values no_values = []
to_values (values v vs) = v ∷ to_values vs

abbrev of_members : List (String × Value) → Members
of_members [] = no_members
of_members ((k, v) ∷ m) = member k v (of_members m)

abbrev to_members : Members → List (String × Value)
to_members no_members = []
to_members (member k v m) = (k, v) ∷ to_members m

to_values-of_values : (vs : List Value) → to_values (of_values vs) ≡ vs
to_values-of_values [] = refl
to_values-of_values (v ∷ vs) = ap (λ r. v ∷ r) (to_values-of_values vs)

to_members-of_members : (m : List (String × Value)) → to_members (of_members m) ≡ m
to_members-of_members [] = refl
to_members-of_members ((k, v) ∷ m) = ap (λ r. (k, v) ∷ r) (to_members-of_members m)

abbrev json : Json ℕ Value
json = record {
  number = number_value;
  real = number_value;
  boolean = boolean_value;
  text = text_value;
  literal = λ s. text_value (codes s);
  array = λ vs. array_value (of_values vs);
  object = λ m. object_value (of_members m);
  dump = λ v. codes "{}";
}

abbrev number_of : Value → Option ℕ
number_of (number_value n) = some n
number_of (boolean_value b) = none
number_of (text_value s) = none
number_of (array_value vs) = none
number_of (object_value m) = none

abbrev boolean_of : Value → Option Bool
boolean_of (number_value n) = none
boolean_of (boolean_value b) = some b
boolean_of (text_value s) = none
boolean_of (array_value vs) = none
boolean_of (object_value m) = none

abbrev text_of : Value → Option (List ℕ)
text_of (number_value n) = none
text_of (boolean_value b) = none
text_of (text_value s) = some s
text_of (array_value vs) = none
text_of (object_value m) = none

abbrev array_of : Value → Option (List Value)
array_of (number_value n) = none
array_of (boolean_value b) = none
array_of (text_value s) = none
array_of (array_value vs) = some (to_values vs)
array_of (object_value m) = none

abbrev member_of : Value → String → Option Value
member_of (number_value n) k = none
member_of (boolean_value b) k = none
member_of (text_value s) k = none
member_of (array_value vs) k = none
member_of (object_value m) k = value_of k (to_members m)

abbrev snap : EngineSnapshot ℕ
snap = push_trade buyer (new_snapshot 0)

-- The reader knows the one text.
abbrev reader : Reader ℕ Value
reader = record {
  parse = λ s. if same_text s (codes "{}") then some (snapshot_json json snap) else none;
  as_number = number_of;
  as_real = number_of;
  as_boolean = boolean_of;
  as_text = text_of;
  as_array = array_of;
  get = member_of;
}

reader-Reads : Reads json reader
reader-Reads = record {
  number = λ n. refl;
  real = λ x. refl;
  boolean = λ b. refl;
  text = λ s. refl;
  array = λ vs. ap some (to_values-of_values vs);
  object = λ m k. ap (value_of k) (to_members-of_members m);
}

read_snapshot-to_json_example : read_snapshot reader (to_json json snap) ≡ some snap
unfolding same_text
read_snapshot-to_json_example = read_snapshot-to_json json reader reader-Reads snap refl

-- One text goes out, then `stop` is called and the broadcast thread ends.
abbrev pub awake : DashboardServer
awake = wake_up (codes "{}") (check_running (listen true (begin_run new_server)))

awake-Steps : Steps true (codes "{}" ∷ []) awake
unfolding begin_run listen check_running wake_up
awake-Steps = wakes (codes "{}") (checks (listens (begins fresh refl) refl) refl) refl

abbrev ended : DashboardServer
ended = run_deferred (check_running (stop awake))

ended-Steps : Steps true (codes "{}" ∷ []) ended
unfolding begin_run listen check_running wake_up stop
ended-Steps = loops (checks (stops awake-Steps) refl) refl

Steps-IsServer_example : IsServer true (codes "{}" ∷ []) ended
Steps-IsServer_example = Steps-IsServer true ended-Steps

stop-closes_example :
    let t = drain (length (stop awake).deferred) (stop awake) in
    (t.listening ≡ false) × (t.closed ≡ count_of true)
unfolding begin_run listen check_running wake_up
stop-closes_example = stop-closes true awake awake-Steps refl refl
