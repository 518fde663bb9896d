-- ===== src/Stats/Summary.antt =====
-- `summary` of gestalt/stats.py
use gestalt_agentic_software.Prelude.Int.{pos}
use gestalt_agentic_software.Stats.Model.{GestaltStats}
use gestalt_agentic_software.Python.Values.{fields_of, Value, int, str, object, bool}
use gestalt_agentic_software.Prelude.{String, ◌∷◌, []}
use gestalt_agentic_software.Python.Dict.{Dict}
use gestalt_agentic_software.Stats.Levels.{health_text, to_int, tier_text, AgentHealth}

-- {key: value.value for key, value in self.agent_health.items()}
unfoldable pub health_texts : Dict String AgentHealth → Dict String Value
unfolding health_text
health_texts [] = []
health_texts ((name, health) ∷ rest) = (name, str (health_text health)) ∷ health_texts rest

unfoldable pub summary : GestaltStats → Dict String Value
unfolding to_int tier_text health_texts fields_of
summary s =
    ("load_level", int (pos (to_int s.load_level)))
    ∷ ("performance_tier", str (tier_text s.performance_tier))
    ∷ ("cost_efficiency_score", int s.cost_efficiency_score)
    ∷ ("security_risk_score", int s.security_risk_score)
    ∷ ("gestalt_cohesion_score", int s.gestalt_cohesion_score)
    ∷ ("agent_health", object (fields_of (health_texts s.agent_health)))
    ∷ ("optimizer_triggered", bool s.optimizer_triggered)
    ∷ []
