-- ===== src/Agent/Metrics.antt =====
-- gateway-agent/src/metrics.js: `Metrics`, without the file that `writeTextfile` writes; the lines
-- of that file are modelled.
pub mod Laws
use guardtime.Base.{
  ℕ, ◌+◌, String, ◌<>◌, Option, none, some, List, [], ◌∷◌, ◌++◌, map, show, string_eq,
}
use guardtime.Base.Dict
use guardtime.Base.Dict.{Dict}

pub record Metrics : Type 0 where
  pub counters : Dict String ℕ
  pub totals : Dict String ℕ

-- `counters[name] || 0`
unfoldable pub count : String → Dict String ℕ → ℕ
count name d = elim (Dict.lookup name d) [ none ↦ 0 | some n ↦ n ]

unfoldable pub add_to : String → ℕ → Dict String ℕ → Dict String ℕ
unfolding count
add_to name by d = Dict.insert name (count name d + by) d

abbrev pub new_metrics : Metrics
new_metrics = record { counters = []; totals = [] }

unfoldable pub inc : (name : String) → (by : ℕ) → Metrics → Metrics
unfolding add_to
inc name by m = record { counters = add_to name by m.counters; totals = add_to name by m.totals }

-- `flush`, which returns the counters as they were.
unfoldable pub flush : Metrics → Dict String ℕ × Metrics
flush m = (m.counters, record m { counters = [] })

-- The lines of the text file.
unfoldable pub text_lines : Metrics → List String
text_lines m =
    "# HELP guardtime_gateway_agent_actions_total Cumulative count of enforcement actions taken, by counter name."
    ∷ "# TYPE guardtime_gateway_agent_actions_total counter"
    ∷ (map (λ e. "guardtime_gateway_agent_actions_total{name=\"" <> e.0 <> "\"} " <> show e.1)
          m.totals
        ++ "" ∷ [])
