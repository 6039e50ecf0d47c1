-- ===== src/Tests/Nodes.antt =====
-- Reports of nodes, failures of synchronisations, and API tokens.
use server_vps.Prelude.{
  ℕ, ◌+◌, ◌≤◌, ◌≡◌, refl, arith, String, Bool, true, none, some, Option, List, [], ◌∷◌, map, Text,
  codes, length,
}
use server_vps.Database.{Db, User, DataSyncTask}
use server_vps.Nodes.Reports.{ContainerStateReport, by_name, sync_node_containers}
use server_vps.Nodes.Reports.Rule.{reported}
use server_vps.Nodes.Reports.Pass.{sync_node_containers-reported}
use server_vps.Tasks.Results.Retries.{Failure, fail_all, budget, fail_all-budget}
use server_vps.Users.Tokens.{token_count, create_all, HasFewTokens, create_all-HasFewTokens}
use server_vps.Tests.Data.{alice, task, database, hash}

abbrev stopped : ContainerStateReport
stopped = record { name = "lab"; status = codes "Stopped"; ip = []; role = "" }

sync_node_containers-reported_example :
    sync_node_containers 7 9 (stopped ∷ []) "available" (database "running")
    ≡ record (database "running") {
      containers = map (reported 7 9 (stopped ∷ [])) (database "running").containers;
    }
unfolding server_vps.Prelude.exists server_vps.Nodes.Reports.is_downloader
sync_node_containers-reported_example =
    sync_node_containers-reported 7 9 (stopped ∷ []) "available" (database "running") (tt, tt) refl
      refl

abbrev sync : DataSyncTask
sync = record {
  id = 5;
  task_type = "shared_resource_sync";
  resource_id = 0;
  target_node_id = 0;
  target_path = [];
  status = "running";
  error = [];
  retry_count = 0;
  max_retries = 1;
  retry_backoff_seconds = 60;
  progress = record { content = []; task_id = none; node = none };
  updated_at = 0;
  finished_at = 0;
}

abbrev syncing : Db
syncing = record (database "running") { data_sync_tasks = sync ∷ [] }

abbrev failure : Failure
failure = record {
  ts = 9;
  error = codes "no route";
  blocked = [];
  task = record task { data_sync_task_id = 5 };
}

abbrev failures : List Failure
failures = failure ∷ failure ∷ failure ∷ []

fail_all-budget_example :
    length (fail_all failures syncing).node_tasks + budget 5 (fail_all failures syncing)
    ≤ length syncing.node_tasks + budget 5 syncing
fail_all-budget_example = fail_all-budget 5 failures syncing (refl, (refl, (refl, tt)))

abbrev wishes : List (Option User × (ℕ × (Text × ℕ)))
wishes = (some alice, (9, (codes "a", 0))) ∷ (none, (9, (codes "b", 0))) ∷ []

few : HasFewTokens (database "running")
unfolding token_count server_vps.Prelude.select
few user_id = omega arith

create_all-HasFewTokens_example : HasFewTokens (create_all hash wishes (database "running"))
create_all-HasFewTokens_example = create_all-HasFewTokens hash wishes (database "running") few
