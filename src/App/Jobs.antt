-- ===== src/App/Jobs.antt =====
-- `build_scheduler` of gestalt/main.py: the jobs that it adds.
use gestalt_agentic_software.Config.{SchedulerConfig}
use gestalt_agentic_software.Protocol.Reports.{CycleRequest}
use gestalt_agentic_software.Graph.{scheduler_request}
use gestalt_agentic_software.Prelude.{String, ℕ, List, ◌∷◌, []}

pub data Interval : Type 0 where
  minutes : ℕ → Interval
  hours : ℕ → Interval

-- A call of `run_cycle` with the request, at each interval, one at a time.
pub record Job : Type 0 where
  pub id : String
  pub interval : Interval
  pub request : CycleRequest
  pub max_instances : ℕ

unfoldable pub build_scheduler : SchedulerConfig → List Job
unfolding scheduler_request
build_scheduler config =
    record {
      id = "monitor";
      interval = minutes config.monitor_interval_minutes;
      request = scheduler_request "Scheduled monitoring cycle" "monitor";
      max_instances = 1;
    }
    ∷ record {
      id = "security_audit";
      interval = hours config.security_audit_interval_hours;
      request = scheduler_request "Scheduled security audit cycle" "security_audit";
      max_instances = 1;
    }
    ∷ record {
      id = "knowledge_maintenance";
      interval = minutes config.knowledge_maintenance_minutes;
      request = scheduler_request "Scheduled knowledge curation" "knowledge";
      max_instances = 1;
    }
    ∷ record {
      id = "optimizer_maintenance";
      interval = minutes config.optimizer_interval_minutes;
      request = scheduler_request "Scheduled optimization maintenance" "optimizer";
      max_instances = 1;
    }
    ∷ []
