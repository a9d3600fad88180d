-- ===== src/Rpc/Outcomes.antt =====
-- rpc.rs: what holds of the state behind a section, however it ends. A panic leaves no state.
use velo_bus.Prelude.{Option, none, some}
use velo_bus.Rpc.{State}
use velo_bus.Rpc.Requests.{Round, returns, continues, panics}

abbrev pub Leaves : {A : Type 0} → (State → Type 0) → Option (A × State) → Type 0
Leaves P none = Unit {0}
Leaves P (some (a, s)) = P s

abbrev pub Rests : (State → Type 0) → Round → Type 0
Rests P (returns r s) = P s
Rests P (continues s) = P s
Rests P panics = Unit {0}

abbrev pub Stays : (State → Type 0) → Option State → Type 0
Stays P none = Unit {0}
Stays P (some s) = P s
