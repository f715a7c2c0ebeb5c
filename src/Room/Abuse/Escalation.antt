-- ===== src/Room/Abuse/Escalation.antt =====
-- apps/realtime/src/drawing-room.ts: how `recordRateAbuse` escalates.
use echa.Prelude.{
  ℕ, suc, ◌+◌, ◌≤◌, ◌<◌, String, true, false, ◌≡◌, refl, Option, none, some, List, [], ◌∷◌, leb,
  ◌==◌, arith, eq_iff, same, if◌then◌else◌, find?, length,
}
use echa.Room.Tokens.Bounds.{IsClock, last_time}
use echa.Room.State.{ActorAbuse}
use echa.Room.Abuse.{
  ActorAbuseAction, AbuseTable, actor_is, escalate, record_rate_abuse, actor_is_temporarily_muted,
  upsert, recorded_since, rate_abuse_window_ms, rate_abuse_mute_threshold,
  rate_abuse_disconnect_threshold, rate_abuse_mute_ms,
}

-- The row of an actor after a table is written, and of the others.
find?-upsert :
    (a : ActorAbuse) (id : String) (rows : List ActorAbuse)
    → find? (actor_is id) (upsert a rows)
      ≡ (if same a.actor_id id then some a else find? (actor_is id) rows)
find?-upsert a id [] = refl
find?-upsert a id (b ∷ bs) = ground (
  arith,
  find?-upsert a id bs,
  eq_iff b.actor_id a.actor_id,
  eq_iff b.actor_id id,
  eq_iff a.actor_id id,
)

-- The violations of one actor at the given times: the table and the last action after them.
unfoldable pub abuse_run :
    String → AbuseTable → ActorAbuseAction → List ℕ → AbuseTable × ActorAbuseAction
abuse_run actor t last [] = (t, last)
abuse_run actor t last (now ∷ times) =
    let (t', action) = record_rate_abuse actor now t in abuse_run actor t' action times

-- The row of an actor after `n` violations, the last one at `now`, of the window from `start`.
pub record InWindow (start n now : ℕ) (a : ActorAbuse) : Type 0 where
  pub counted : a.violation_count ≡ n
  pub started : a.window_started_at ≡ start
  pub free : n < rate_abuse_mute_threshold → a.muted_until ≡ 0
  pub muted : rate_abuse_mute_threshold ≤ n → now + rate_abuse_mute_ms ≤ a.muted_until
  pub kept : n < rate_abuse_disconnect_threshold → a.disconnected_at ≡ none
  pub cut : rate_abuse_disconnect_threshold ≤ n → recorded_since a.disconnected_at start ≡ true

escalate_first :
    (actor : String) (now : ℕ)
    → InWindow now 1 now (escalate none actor now).0
      × ((escalate none actor now).1.newly_disconnected ≡ false)
      × ((escalate none actor now).1.disconnect ≡ false)
unfolding escalate
escalate_first actor now = ground arith

escalate_next :
    (a : ActorAbuse) (actor : String) (start n before now : ℕ)
    → InWindow start n before a
    → start ≤ before
    → before ≤ now
    → now < start + rate_abuse_window_ms
    → InWindow start (suc n) now (escalate (some a) actor now).0
unfolding escalate
escalate_next a actor start n before now w s order inside = ground arith

escalate_action :
    (a : ActorAbuse) (actor : String) (start n before now : ℕ)
    → InWindow start n before a
    → now < start + rate_abuse_window_ms
    → ((escalate (some a) actor now).1.disconnect ≡ leb rate_abuse_disconnect_threshold (suc n))
      × ((escalate (some a) actor now).1.newly_disconnected
          ≡ (rate_abuse_disconnect_threshold == suc n))
unfolding escalate
escalate_action a actor start n before now w inside = ground arith

-- What a run of violations of one window leaves: the actor's row, the last action, and the metrics,
-- which count every violation and the one that cuts the actor off; no other actor's row changes.
pub record Escalated (actor : String) (t t' : AbuseTable) (last : ActorAbuseAction)
    (start n now : ℕ) : Type 0 where
  pub row : ActorAbuse
  pub found : find? (actor_is actor) t'.rows ≡ some row
  pub in_window : InWindow start n now row
  pub disconnects : last.disconnect ≡ leb rate_abuse_disconnect_threshold n
  pub cut_once :
      t'.abuse_disconnect
      ≡ t.abuse_disconnect + (if leb rate_abuse_disconnect_threshold n then 1 else 0)
  pub counted : t'.rate_limited ≡ t.rate_limited + n
  pub others :
      (id : String)
      → same actor id ≡ false
      → find? (actor_is id) t'.rows ≡ find? (actor_is id) t.rows

-- All the times lie before the end of the window.
abbrev pub IsBefore : ℕ → List ℕ → Type 0
IsBefore end [] = Unit
IsBefore end (now ∷ times) = (now < end) × IsBefore end times

escalate_key :
    (previous : Option ActorAbuse) (actor : String) (now : ℕ)
    → (escalate previous actor now).0.actor_id ≡ actor
unfolding escalate
escalate_key previous actor now = refl

record_first :
    (actor : String) (t : AbuseTable) (now : ℕ)
    → find? (actor_is actor) t.rows ≡ none
    → Escalated actor t
        (record_rate_abuse actor now t).0
        (record_rate_abuse actor now t).1
        now
        1
        now
unfolding record_rate_abuse
record_first actor t now h =
    let e = escalate none actor now in
    let (w, not_new, no_cut) = escalate_first actor now in
    record {
      row = e.0;
      found =
          ground
            (arith, find?-upsert e.0 actor t.rows, escalate_key none actor now, eq_iff actor actor);
      in_window = w;
      disconnects = ground arith;
      cut_once = ground arith;
      counted = ground arith;
      others = λ id other. ground (arith, find?-upsert e.0 id t.rows, escalate_key none actor now);
    }

record_next :
    (actor : String) (t0 t : AbuseTable) (last : ActorAbuseAction) (start n before now : ℕ)
    → Escalated actor t0 t last start n before
    → start ≤ before
    → before ≤ now
    → now < start + rate_abuse_window_ms
    → Escalated actor t0
        (record_rate_abuse actor now t).0
        (record_rate_abuse actor now t).1
        start
        (suc n)
        now
unfolding record_rate_abuse
record_next actor t0 t last start n before now d s order inside =
    let e = escalate (some d.row) actor now in
    let key = escalate_key (some d.row) actor now in
    let (cuts, newly) = escalate_action d.row actor start n before now d.in_window inside in
    rw d.found (record {
      row = e.0;
      found = ground (arith, find?-upsert e.0 actor t.rows, key, eq_iff actor actor);
      in_window = escalate_next d.row actor start n before now d.in_window s order inside;
      disconnects = cuts;
      cut_once = ground (arith, d.cut_once, newly);
      counted = omega (arith, d.counted);
      others = λ id other. ground (arith, find?-upsert e.0 id t.rows, key, d.others id other);
    })

abuse_run-Escalated :
    (actor : String) (t0 t : AbuseTable) (last : ActorAbuseAction) (start n before : ℕ)
    (times : List ℕ)
    → Escalated actor t0 t last start n before
    → start ≤ before
    → IsClock before times
    → IsBefore (start + rate_abuse_window_ms) times
    → Escalated actor t0
        (abuse_run actor t last times).0
        (abuse_run actor t last times).1
        start
        (n + length times)
        (last_time before times)
unfolding abuse_run
abuse_run-Escalated actor t0 t last start n before [] d s clock inside =
    let same_n : n + 0 ≡ n = omega arith in rw same_n d
abuse_run-Escalated actor t0 t last start n before (now ∷ times) d s clock inside =
    let step = record_next actor t0 t last start n before now d s clock.0 inside.0 in
    let shift : n + suc (length times) ≡ suc n + length times = omega arith in
    rw shift (
      abuse_run-Escalated actor t0 (record_rate_abuse actor now t).0
        (record_rate_abuse actor now t).1 start (suc n) now times step (omega (arith, clock.0))
        clock.1 inside.1)

-- From an actor without a row, on a clock that does not go back, and before the first window ends:
-- after its violations the actor is muted past the last one exactly from the third on, every action
-- from the eighth on disconnects and none before, the metrics count each violation and the
-- disconnection once, and no other actor's row changes.
pub abuse_run_escalates :
    (actor : String) (t : AbuseTable) (last : ActorAbuseAction) (start : ℕ) (times : List ℕ)
    → find? (actor_is actor) t.rows ≡ none
    → IsClock start times
    → IsBefore (start + rate_abuse_window_ms) times
    → let (t', action) = abuse_run actor t last (start ∷ times) in
      Escalated actor t t' action start (suc (length times)) (last_time start times)
      × (actor_is_temporarily_muted actor (last_time start times) t'
          ≡ leb rate_abuse_mute_threshold (suc (length times)))
unfolding abuse_run actor_is_temporarily_muted
abuse_run_escalates actor t last start times new clock inside =
    let d =
      abuse_run-Escalated actor t (record_rate_abuse actor start t).0
        (record_rate_abuse actor start t).1 start 1 start times (record_first actor t start new)
        (omega arith) clock inside in
    let one : 1 + length times ≡ suc (length times) = omega arith in
    let e = rw one at d in (e, ground (arith, e.found))
