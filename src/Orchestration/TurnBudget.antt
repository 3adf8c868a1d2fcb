-- ===== src/Orchestration/TurnBudget.antt =====
-- The budget of a turn's iterations and tool calls (src/orchestration/turnBudget.ts).
mod Tests
use rector.Prelude.{
  ℕ, zero, suc, ◌+◌, ◌-◌, ◌≤◌, Bool, true, false, not, ◌&&◌, ◌||◌, List, [], ◌∷◌, if◌then◌else◌,
  ltb, leb, min, ◌≡◌, refl, arith, Bool-cases, inl, inr,
}

pub record TurnBudgetConfig : Type 0 where
  pub max_iterations : ℕ
  pub max_tool_calls : ℕ
  pub grace_call_on_exhaustion : Bool

pub record IterationBudget : Type 0 where
  pub config : TurnBudgetConfig
  pub iterations_used : ℕ
  pub tool_calls_used : ℕ
  pub grace_available : Bool
  pub grace_used : Bool

pub record TurnBudgetSnapshot : Type 0 where
  pub iterations_used : ℕ
  pub iterations_remaining : ℕ
  pub tool_calls_used : ℕ
  pub tool_calls_remaining : ℕ
  pub grace_call_available : Bool
  pub grace_call_used : Bool

abbrev pub new_budget : TurnBudgetConfig → IterationBudget
new_budget config = record {
  config = config;
  iterations_used = 0;
  tool_calls_used = 0;
  grace_available = false;
  grace_used = false;
}

abbrev pub remaining : IterationBudget → ℕ
remaining b = b.config.max_iterations - b.iterations_used

abbrev pub tool_calls_remaining : IterationBudget → ℕ
tool_calls_remaining b = b.config.max_tool_calls - b.tool_calls_used

abbrev pub grace_call_available : IterationBudget → Bool
grace_call_available b = b.grace_available && not b.grace_used

abbrev pub consume_tool_call : IterationBudget → Bool × IterationBudget
consume_tool_call b =
    if leb (tool_calls_remaining b) 0
    then (false, b)
    else (true, record b { tool_calls_used = b.tool_calls_used + 1 })

abbrev pub consume_iteration : IterationBudget → Bool × IterationBudget
consume_iteration b =
    if ltb 0 (remaining b)
    then (true, record b { iterations_used = b.iterations_used + 1 })
    else if grace_call_available b
    then (true, record b { grace_used = true })
    else (false, b)

abbrev pub grant_grace_call : IterationBudget → IterationBudget
grant_grace_call b =
    if b.config.grace_call_on_exhaustion && not b.grace_used
    then record b { grace_available = true }
    else b

abbrev pub snapshot : IterationBudget → TurnBudgetSnapshot
snapshot b = record {
  iterations_used = b.iterations_used;
  iterations_remaining = remaining b;
  tool_calls_used = b.tool_calls_used;
  tool_calls_remaining = tool_calls_remaining b;
  grace_call_available = grace_call_available b;
  grace_call_used = b.grace_used;
}

-- The calls that a turn makes of its budget.
pub data TurnCall : Type 0 where
  iterate call_tool grant : TurnCall

abbrev pub after_call : TurnCall → IterationBudget → IterationBudget
after_call iterate b = (consume_iteration b).1
after_call call_tool b = (consume_tool_call b).1
after_call grant b = grant_grace_call b

abbrev pub one_if : Bool → ℕ
one_if true = 1
one_if false = 0

-- How many iterations, and how many tool calls, the budget grants.
abbrev pub iterations : List TurnCall → IterationBudget → ℕ
iterations [] b = 0
iterations (iterate ∷ cs) b = one_if (consume_iteration b).0 + iterations cs (consume_iteration b).1
iterations (call_tool ∷ cs) b = iterations cs (consume_tool_call b).1
iterations (grant ∷ cs) b = iterations cs (grant_grace_call b)

abbrev pub tool_calls : List TurnCall → IterationBudget → ℕ
tool_calls [] b = 0
tool_calls (iterate ∷ cs) b = tool_calls cs (consume_iteration b).1
tool_calls (call_tool ∷ cs) b =
    one_if (consume_tool_call b).0 + tool_calls cs (consume_tool_call b).1
tool_calls (grant ∷ cs) b = tool_calls cs (grant_grace_call b)

-- What is left of the iterations, the grace call included.
abbrev room : IterationBudget → ℕ
room b =
    remaining b
    + one_if (not b.grace_used && (b.grace_available || b.config.grace_call_on_exhaustion))

consume_iteration-room :
    (b : IterationBudget) → one_if (consume_iteration b).0 + room (consume_iteration b).1 ≤ room b
consume_iteration-room b = ground arith

consume_tool_call-room : (b : IterationBudget) → room (consume_tool_call b).1 ≤ room b
consume_tool_call-room b = ground arith

grant_grace_call-room : (b : IterationBudget) → room (grant_grace_call b) ≤ room b
grant_grace_call-room b = ground arith

iterations-room : (cs : List TurnCall) (b : IterationBudget) → iterations cs b ≤ room b
iterations-room [] b = omega arith
iterations-room (iterate ∷ cs) b =
    omega (arith, consume_iteration-room b, iterations-room cs (consume_iteration b).1)
iterations-room (call_tool ∷ cs) b =
    omega (arith, consume_tool_call-room b, iterations-room cs (consume_tool_call b).1)
iterations-room (grant ∷ cs) b =
    omega (arith, grant_grace_call-room b, iterations-room cs (grant_grace_call b))

-- Whatever calls a turn makes, its budget grants at most the configured iterations, and one more only
-- if the configuration has a grace call.
pub iterations-bounded :
    (config : TurnBudgetConfig) (cs : List TurnCall)
    → iterations cs (new_budget config)
      ≤ config.max_iterations + one_if config.grace_call_on_exhaustion
iterations-bounded config cs = omega (arith, iterations-room cs (new_budget config))

abbrev pub tool_calls_asked : List TurnCall → ℕ
tool_calls_asked [] = 0
tool_calls_asked (iterate ∷ cs) = tool_calls_asked cs
tool_calls_asked (call_tool ∷ cs) = suc (tool_calls_asked cs)
tool_calls_asked (grant ∷ cs) = tool_calls_asked cs

consume_iteration-tools :
    (b : IterationBudget) → tool_calls_remaining (consume_iteration b).1 ≡ tool_calls_remaining b
consume_iteration-tools b = ground arith

grant_grace_call-tools :
    (b : IterationBudget) → tool_calls_remaining (grant_grace_call b) ≡ tool_calls_remaining b
grant_grace_call-tools b = ground arith

-- The budget grants exactly the tool calls that are asked for, up to what is left of its maximum.
pub tool_calls-min :
    (cs : List TurnCall) (b : IterationBudget)
    → tool_calls cs b ≡ min (tool_calls_asked cs) (tool_calls_remaining b)
tool_calls-min [] b = omega arith
tool_calls-min (iterate ∷ cs) b =
    omega (arith, consume_iteration-tools b, tool_calls-min cs (consume_iteration b).1)
tool_calls-min (call_tool ∷ cs) b = elim (Bool-cases (leb (tool_calls_remaining b) 0)) [
  | inl none' ↦ rw none' (ground (arith, tool_calls-min cs b))
  | inr some' ↦
      let rest = tool_calls-min cs (record b { tool_calls_used = b.tool_calls_used + 1 }) in
      rw some' (ground (arith, rest))
]
tool_calls-min (grant ∷ cs) b =
    omega (arith, grant_grace_call-tools b, tool_calls-min cs (grant_grace_call b))
