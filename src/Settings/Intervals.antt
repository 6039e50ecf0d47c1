-- ===== src/Settings/Intervals.antt =====
-- The periods that the backend hands to the node agents.
use server_vps.Prelude.{
  ℕ, ◌≤◌, String, ◌≡◌, inl, inr, Option, Text, arith, Dict, ℤ, pos, negsuc, at_least, parse_int,
  Option-cases, Result-cases, ok,
}
use server_vps.Settings.{PlatformSettings, or_text}
use server_vps.Settings.Read.{
  int_setting, raw_setting, settings_of, get_platform_settings, CollectionConfig,
  get_agent_collection_config,
}

at_least_lem : (k : ℕ) (i : ℤ) → k ≤ at_least k i
unfolding at_least
at_least_lem k (pos n) = omega arith
at_least_lem k (negsuc n) = omega arith

int_setting-bound :
    (raw : String → Text) (low : ℕ) (key default : String) (n : ℕ)
    → int_setting raw low key default ≡ ok n
    → low ≤ n
unfolding int_setting
int_setting-bound raw low key default n h =
    elim (Option-cases (parse_int (or_text (raw key) default))) [
      | inl e ↦ absurd (ground (arith, e, h))
      | inr (i, e) ↦ ground (arith, e, h, at_least_lem low i)
    ]

-- The settings whose periods are long enough.
pub record HasPeriods (s : PlatformSettings) : Type 0 where
  pub metrics : 1 ≤ s.agent_metrics_interval_seconds
  pub heartbeat : 5 ≤ s.agent_heartbeat_interval_seconds
  pub container : 5 ≤ s.agent_container_interval_seconds
  pub storage : 30 ≤ s.agent_storage_interval_seconds
  pub inventory : 60 ≤ s.agent_inventory_interval_seconds
  pub task_poll : 1 ≤ s.agent_task_poll_interval_seconds

settings_of-HasPeriods :
    (raw : String → Text) (s : PlatformSettings) → settings_of raw ≡ ok s → HasPeriods s
unfolding settings_of
settings_of-HasPeriods raw s h = record {
  metrics =
      int_setting-bound raw 1 "agent_metrics_interval_seconds" "2" s.agent_metrics_interval_seconds
        (ground (arith, h));
  heartbeat =
      int_setting-bound raw 5 "agent_heartbeat_interval_seconds" "15"
        s.agent_heartbeat_interval_seconds (ground (arith, h));
  container =
      int_setting-bound raw 5 "agent_container_interval_seconds" "15"
        s.agent_container_interval_seconds (ground (arith, h));
  storage =
      int_setting-bound raw 30 "agent_storage_interval_seconds" "60"
        s.agent_storage_interval_seconds (ground (arith, h));
  inventory =
      int_setting-bound raw 60 "agent_inventory_interval_seconds" "300"
        s.agent_inventory_interval_seconds (ground (arith, h));
  task_poll =
      int_setting-bound raw 1 "agent_task_poll_interval_seconds" "5"
        s.agent_task_poll_interval_seconds (ground (arith, h));
}

-- Whatever the table and the environment hold, the agents are never told to report more often than each second for
-- metrics and tasks, each 5 seconds for heartbeats and containers, each 30 for storage and each 60 for the inventory.
pub get_agent_collection_config-bounds :
    (env : Text → Option Text) (table : Dict String Text) (c : CollectionConfig)
    → get_agent_collection_config env table ≡ ok c
    → (1 ≤ c.metrics_interval_seconds)
      × (5 ≤ c.heartbeat_interval_seconds)
      × (5 ≤ c.container_interval_seconds)
      × (30 ≤ c.storage_interval_seconds)
      × (60 ≤ c.inventory_interval_seconds)
      × (1 ≤ c.task_poll_interval_seconds)
unfolding get_agent_collection_config get_platform_settings
get_agent_collection_config-bounds env table c h =
    elim (Result-cases (settings_of (raw_setting env table))) [
      | inr (code, e) ↦ absurd (ground (arith, e, h))
      | inl (s, e) ↦
          let p = settings_of-HasPeriods (raw_setting env table) s e in
          ground
            (arith, e, h, p.metrics, p.heartbeat, p.container, p.storage, p.inventory, p.task_poll)
    ]
