-- ===== src/Snapshot/Tests.antt =====
-- apps/realtime/src/snapshot-automation.ts: a decision on concrete numbers.
use echa.Prelude.{◌+◌, ◌≤◌, true, ◌≡◌, ◌⊎◌, refl, some}
use echa.Snapshot.Automation.{
  shadow, SnapshotAutomationConfig, SnapshotAutomationInput, SnapshotAutomationEnv, decide_status,
  decide_snapshot_automation, positive_safe_integer, snapshot_automation_config,
}
use echa.Snapshot.Decision.{is_trigger, decide_snapshot_automation_grows}

runs : Unit {0}
unfolding decide_status decide_snapshot_automation positive_safe_integer snapshot_automation_config
runs = tt

abbrev env : SnapshotAutomationEnv
env = record {
  mode = "shadow";
  trigger_event_count = 1_000;
  trigger_payload_bytes = 100_000;
  min_event_delta = 500;
  min_payload_delta_bytes = 50_000;
}

abbrev config : SnapshotAutomationConfig
config = record {
  mode = shadow;
  first_event_count = 1_000;
  first_payload_bytes = 100_000;
  min_event_delta = 500;
  min_payload_delta_bytes = 50_000;
}

abbrev input : SnapshotAutomationInput
input = record {
  lifecycle_active = true;
  active_stroke_count = 0;
  queued_job_count = 0;
  total_event_count = 1_600;
  total_payload_bytes = 90_000;
  last_job_event_count = some 1_000;
  last_job_payload_bytes = some 60_000;
}

config_read : snapshot_automation_config env ≡ some config
unfolding runs
config_read = refl

triggers : is_trigger (decide_snapshot_automation config input).status ≡ true
unfolding runs
triggers = refl

decide_snapshot_automation_grows_example :
    (1 ≤ 500) × (1 ≤ 50_000) × ((1_000 + 500 ≤ 1_600) ⊎ (60_000 + 50_000 ≤ 90_000))
decide_snapshot_automation_grows_example =
    decide_snapshot_automation_grows env config input 1_000 60_000 config_read refl refl triggers
