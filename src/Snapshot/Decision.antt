-- ===== src/Snapshot/Decision.antt =====
-- apps/realtime/src/snapshot-automation.ts: when `decideSnapshotAutomation` triggers.
use echa.Prelude.{ℕ, ◌+◌, ◌≤◌, Bool, true, false, ◌≡◌, ◌⊎◌, ◌↔◌, inl, inr, some, arith, bind-some}
use echa.Snapshot.Automation.{
  SnapshotAutomationConfig, SnapshotAutomationInput, SnapshotAutomationEnv, Decision, trigger,
  is_off, event_threshold, payload_threshold, event_delta_of, payload_delta_of, decide_status,
  decide_snapshot_automation, positive_safe_integer, snapshot_automation_config, mode_of,
}

abbrev pub is_trigger : Decision → Bool
is_trigger (trigger t) = true
is_trigger _ = false

-- A snapshot may be made of a room, and there is enough that is new.
pub record IsDue (config : SnapshotAutomationConfig) (input : SnapshotAutomationInput)
    : Type 0 where
  pub enabled : is_off config.mode ≡ false
  pub lively : input.lifecycle_active ≡ true
  pub no_strokes : input.active_stroke_count ≡ 0
  pub no_jobs : input.queued_job_count ≡ 0
  pub enough :
      (event_threshold config input ≤ event_delta_of input)
      ⊎ (payload_threshold config input ≤ payload_delta_of input)

-- A snapshot is triggered exactly when automation is on, the room active, no stroke active, no job
-- queued, and one of the two thresholds reached.
decide_snapshot_automation_lem :
    (config : SnapshotAutomationConfig) (input : SnapshotAutomationInput)
    → (is_trigger (decide_snapshot_automation config input).status ≡ true) ↔ IsDue config input
unfolding decide_snapshot_automation decide_status
decide_snapshot_automation_lem config input = (
  λ h. record {
    enabled = ground arith;
    lively = ground arith;
    no_strokes = ground arith;
    no_jobs = ground arith;
    enough = ground arith;
  },
  λ d. ground (arith, d.enabled, d.lively, d.no_strokes, d.no_jobs, d.enough),
)

positive_safe_integer_lem : (n : ℕ) {m : ℕ} → positive_safe_integer n ≡ some m → 1 ≤ m
unfolding positive_safe_integer
positive_safe_integer_lem n h = ground arith

growth :
    (config : SnapshotAutomationConfig) (input : SnapshotAutomationInput)
    (last_events last_bytes : ℕ)
    → input.last_job_event_count ≡ some last_events
    → input.last_job_payload_bytes ≡ some last_bytes
    → 1 ≤ config.min_event_delta
    → 1 ≤ config.min_payload_delta_bytes
    → (event_threshold config input ≤ event_delta_of input)
      ⊎ (payload_threshold config input ≤ payload_delta_of input)
    → (last_events + config.min_event_delta ≤ input.total_event_count)
      ⊎ (last_bytes + config.min_payload_delta_bytes ≤ input.total_payload_bytes)
growth config input last_events last_bytes e b k l (inl h) = inl (ground arith)
growth config input last_events last_bytes e b k l (inr h) = inr (ground arith)

-- With a configuration that was read from the environment, a room asks again only after it grew by
-- the least growth of events or of bytes past its last job, so never without an event or a byte more.
pub decide_snapshot_automation_grows :
    (env : SnapshotAutomationEnv) (config : SnapshotAutomationConfig)
    (input : SnapshotAutomationInput) (last_events last_bytes : ℕ)
    → snapshot_automation_config env ≡ some config
    → input.last_job_event_count ≡ some last_events
    → input.last_job_payload_bytes ≡ some last_bytes
    → is_trigger (decide_snapshot_automation config input).status ≡ true
    → (1 ≤ config.min_event_delta)
      × (1 ≤ config.min_payload_delta_bytes)
      × ((last_events + config.min_event_delta ≤ input.total_event_count)
          ⊎ (last_bytes + config.min_payload_delta_bytes ≤ input.total_payload_bytes))
unfolding snapshot_automation_config
decide_snapshot_automation_grows env config input last_events last_bytes read e b h =
    let (mode, at_mode, h1) = bind-some (mode_of env.mode) _ read in
    let (fe, at_fe, h2) = bind-some (positive_safe_integer env.trigger_event_count) _ h1 in
    let (fp, at_fp, h3) = bind-some (positive_safe_integer env.trigger_payload_bytes) _ h2 in
    let (me, at_me, h4) = bind-some (positive_safe_integer env.min_event_delta) _ h3 in
    let (mp, at_mp, h5) = bind-some (positive_safe_integer env.min_payload_delta_bytes) _ h4 in
    let some_event = positive_safe_integer_lem env.min_event_delta at_me in
    let some_byte = positive_safe_integer_lem env.min_payload_delta_bytes at_mp in
    let d = (decide_snapshot_automation_lem config input).0 h in
    (
      ground (arith, some_event),
      ground (arith, some_byte),
      growth config input last_events last_bytes e b (ground (arith, some_event))
          (ground (arith, some_byte)) d.enough,
    )
