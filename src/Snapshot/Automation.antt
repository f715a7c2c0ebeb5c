-- ===== src/Snapshot/Automation.antt =====
-- apps/realtime/src/snapshot-automation.ts: the configuration and the decision. Counts and sizes are
-- whole numbers and not negative, as the room's metrics are.
use echa.Prelude.{
  ℕ, ◌-◌, ◌^◌, String, Bool, true, false, not, ◌&&◌, Option, none, some, ltb, leb, ◌==◌,
  if◌then◌else◌, is_some, same, ◌>>=◌,
}

pub data SnapshotAutomationMode : Type 0 where
  off shadow compact : SnapshotAutomationMode

pub record SnapshotAutomationConfig : Type 0 where
  pub mode : SnapshotAutomationMode
  pub first_event_count : ℕ
  pub first_payload_bytes : ℕ
  pub min_event_delta : ℕ
  pub min_payload_delta_bytes : ℕ

pub record SnapshotAutomationInput : Type 0 where
  pub lifecycle_active : Bool
  pub active_stroke_count : ℕ
  pub queued_job_count : ℕ
  pub total_event_count : ℕ
  pub total_payload_bytes : ℕ
  pub last_job_event_count : Option ℕ
  pub last_job_payload_bytes : Option ℕ

pub data Trigger : Type 0 where
  events payload : Trigger

pub data Decision : Type 0 where
  disabled room_inactive stroke_active job_pending below_threshold : Decision
  trigger : Trigger → Decision

pub record SnapshotAutomationDecision : Type 0 where
  pub mode : SnapshotAutomationMode
  pub status : Decision
  pub event_delta : ℕ
  pub payload_delta_bytes : ℕ

-- The variables of the environment.
pub record SnapshotAutomationEnv : Type 0 where
  pub mode : String
  pub trigger_event_count : ℕ
  pub trigger_payload_bytes : ℕ
  pub min_event_delta : ℕ
  pub min_payload_delta_bytes : ℕ

abbrev pub max_safe_integer : ℕ
max_safe_integer = 2 ^ 53 - 1

-- `positiveSafeInteger`, which throws a `RangeError`.
unfoldable pub positive_safe_integer : ℕ → Option ℕ
positive_safe_integer n = if n == 0 then none else if ltb max_safe_integer n then none else some n

abbrev pub mode_of : String → Option SnapshotAutomationMode
mode_of text =
    if same text "off"
    then some off
    else if same text "shadow"
    then some shadow
    else if same text "compact"
    then some compact
    else none

unfoldable pub snapshot_automation_config : SnapshotAutomationEnv → Option SnapshotAutomationConfig
snapshot_automation_config env = do
  mode ← mode_of env.mode
  first_event_count ← positive_safe_integer env.trigger_event_count
  first_payload_bytes ← positive_safe_integer env.trigger_payload_bytes
  min_event_delta ← positive_safe_integer env.min_event_delta
  min_payload_delta_bytes ← positive_safe_integer env.min_payload_delta_bytes
  some (record {
    mode = mode;
    first_event_count = first_event_count;
    first_payload_bytes = first_payload_bytes;
    min_event_delta = min_event_delta;
    min_payload_delta_bytes = min_payload_delta_bytes;
  })

abbrev pub is_off : SnapshotAutomationMode → Bool
is_off off = true
is_off _ = false

abbrev pub is_compact : SnapshotAutomationMode → Bool
is_compact compact = true
is_compact _ = false

-- `?? 0`.
abbrev pub or_zero : Option ℕ → ℕ
or_zero none = 0
or_zero (some n) = n

abbrev pub has_previous_job : SnapshotAutomationInput → Bool
has_previous_job input = is_some input.last_job_event_count && is_some input.last_job_payload_bytes

abbrev pub event_threshold : SnapshotAutomationConfig → SnapshotAutomationInput → ℕ
event_threshold config input =
    if has_previous_job input then config.min_event_delta else config.first_event_count

abbrev pub payload_threshold : SnapshotAutomationConfig → SnapshotAutomationInput → ℕ
payload_threshold config input =
    if has_previous_job input then config.min_payload_delta_bytes else config.first_payload_bytes

abbrev pub event_delta_of : SnapshotAutomationInput → ℕ
event_delta_of input = input.total_event_count - or_zero input.last_job_event_count

abbrev pub payload_delta_of : SnapshotAutomationInput → ℕ
payload_delta_of input = input.total_payload_bytes - or_zero input.last_job_payload_bytes

unfoldable pub decide_status : SnapshotAutomationConfig → SnapshotAutomationInput → Decision
decide_status config input =
    if is_off config.mode
    then disabled
    else if not input.lifecycle_active
    then room_inactive
    else if ltb 0 input.active_stroke_count
    then stroke_active
    else if ltb 0 input.queued_job_count
    then job_pending
    else if leb (event_threshold config input) (event_delta_of input)
    then trigger events
    else if leb (payload_threshold config input) (payload_delta_of input)
    then trigger payload
    else below_threshold

unfoldable pub decide_snapshot_automation :
    SnapshotAutomationConfig → SnapshotAutomationInput → SnapshotAutomationDecision
unfolding decide_status
decide_snapshot_automation config input = record {
  mode = config.mode;
  status = decide_status config input;
  event_delta = event_delta_of input;
  payload_delta_bytes = payload_delta_of input;
}

unfoldable pub should_arm_snapshot_compaction : SnapshotAutomationMode → Option ℕ → Bool
should_arm_snapshot_compaction mode none = false
should_arm_snapshot_compaction mode (some base) = is_compact mode && ltb 0 base
