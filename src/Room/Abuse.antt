-- ===== src/Room/Abuse.antt =====
-- apps/realtime/src/drawing-room.ts: `recordRateAbuse` and `actorIsTemporarilyMuted`, with the
-- metrics that they count.
pub mod Escalation
use echa.Prelude.{
  ℕ, suc, ◌+◌, ◌-◌, String, Bool, true, false, not, ◌&&◌, ◌||◌, Option, none, some, List, [], ◌∷◌,
  ltb, leb, same, if◌then◌else◌, max, find?, is_some, update,
}
use echa.Room.State.{ActorAbuse}

abbrev pub rate_abuse_window_ms : ℕ
rate_abuse_window_ms = 10_000

abbrev pub rate_abuse_mute_ms : ℕ
rate_abuse_mute_ms = 5_000

abbrev pub rate_abuse_mute_threshold : ℕ
rate_abuse_mute_threshold = 3

abbrev pub rate_abuse_disconnect_threshold : ℕ
rate_abuse_disconnect_threshold = 8

pub record ActorAbuseAction : Type 0 where
  pub muted_until : ℕ
  pub disconnect : Bool
  pub newly_muted : Bool
  pub newly_disconnected : Bool

-- The table `actor_abuse_state` and its metrics.
pub record AbuseTable : Type 0 where
  pub rows : List ActorAbuse
  pub rate_limited : ℕ
  pub short_mute : ℕ
  pub abuse_disconnect : ℕ

abbrev pub actor_is : String → ActorAbuse → Bool
actor_is id a = same a.actor_id id

-- `previous?.muted_until ?? 0`.
abbrev pub muted_before : Option ActorAbuse → ℕ
muted_before none = 0
muted_before (some a) = a.muted_until

abbrev pub disconnected_before : Option ActorAbuse → Option ℕ
disconnected_before none = none
disconnected_before (some a) = a.disconnected_at

-- Whether the violation opens a new window.
abbrev pub resets : Option ActorAbuse → ℕ → Bool
resets none now = true
resets (some a) now = leb rate_abuse_window_ms (now - a.window_started_at) && leb a.muted_until now

abbrev pub window_start : Option ActorAbuse → ℕ → ℕ
window_start none now = now
window_start (some a) now = if resets (some a) now then now else a.window_started_at

abbrev pub violations : Option ActorAbuse → ℕ → ℕ
violations none now = 1
violations (some a) now = if resets (some a) now then 1 else a.violation_count + 1

-- `disconnectAlreadyRecorded`.
abbrev pub recorded_since : Option ℕ → ℕ → Bool
recorded_since none start = false
recorded_since (some at) start = leb start at

-- The row and the action of one violation.
unfoldable pub escalate : Option ActorAbuse → String → ℕ → ActorAbuse × ActorAbuseAction
escalate previous actor now =
    let start = window_start previous now in
    let count = violations previous now in
    let muted =
      if leb rate_abuse_mute_threshold count
      then max (muted_before previous) (now + rate_abuse_mute_ms)
      else muted_before previous in
    let disconnect = leb rate_abuse_disconnect_threshold count in
    let already = recorded_since (disconnected_before previous) start in
    (
      record {
        actor_id = actor;
        violation_count = count;
        window_started_at = start;
        muted_until = muted;
        disconnected_at =
            if disconnect
            then (if already then disconnected_before previous else some now)
            else (if resets previous now then none else disconnected_before previous);
      },
      record {
        muted_until = muted;
        disconnect = disconnect;
        newly_muted = not (ltb now (muted_before previous)) && ltb now muted;
        newly_disconnected = disconnect && not already;
      },
    )

abbrev bump_if : Bool → ℕ → ℕ
bump_if b n = if b then suc n else n

-- `INSERT … ON CONFLICT(actor_id) DO UPDATE`.
abbrev pub upsert : ActorAbuse → List ActorAbuse → List ActorAbuse
upsert a [] = a ∷ []
upsert a (b ∷ bs) = let rest = b ∷ upsert a bs in if actor_is a.actor_id b then a ∷ bs else rest

unfoldable pub record_rate_abuse : String → ℕ → AbuseTable → AbuseTable × ActorAbuseAction
record_rate_abuse actor now t =
    let (row, action) = escalate (find? (actor_is actor) t.rows) actor now in
    (
      record {
        rows = upsert row t.rows;
        rate_limited = suc t.rate_limited;
        short_mute = bump_if action.newly_muted t.short_mute;
        abuse_disconnect = bump_if action.newly_disconnected t.abuse_disconnect;
      },
      action,
    )

unfoldable pub actor_is_temporarily_muted : String → ℕ → AbuseTable → Bool
actor_is_temporarily_muted actor now t = ltb now (muted_before (find? (actor_is actor) t.rows))
