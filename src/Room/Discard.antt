-- ===== src/Room/Discard.antt =====
-- apps/realtime/src/drawing-room.ts: what `processWebSocketMessage` does with a drawing event that it
-- will not persist: `rejectRateLimitedDrawing` with `rejectRateAbuse`, and the emergency stop.
pub mod Effects
use echa.Prelude.{ℕ, String, Bool, true, false, Option, none, some, List, [], ◌>>=◌, if◌then◌else◌}
use echa.Protocol.Messages.{
  ClientStrokeEvent, RoomStrokeEvent, RejectCode, rate_limited, service_emergency_stop,
  AcceptedStrokeEvent,
}
use echa.Room.Log.{StrokeLog, finalize_active_strokes}
use echa.Room.State.{ConnectionAttachment, Room}
use echa.Room.Persist.{discard_ordered_event}
use echa.Room.Abuse.{AbuseTable, ActorAbuseAction, record_rate_abuse}

-- The rejection that is sent, the strokes that are broadcast as ended, and whether the socket is closed.
pub record Discarded : Type 0 where
  pub room : Room
  pub abuse : AbuseTable
  pub rejection : RejectCode
  pub finalized : List AcceptedStrokeEvent
  pub disconnect : Bool

abbrev pub is_rate_limited : RejectCode → Bool
is_rate_limited rate_limited = true
is_rate_limited _ = false

module _ (byte_length : RoomStrokeEvent → ℕ) where
  -- The transaction of `rejectRateLimitedDrawing` where the number was used up, and `rejectRateAbuse`.
  pub cut_off : ConnectionAttachment → ℕ → Room → AbuseTable → RejectCode → Option Discarded
  cut_off a now r abuse code = do
    (log, finalized) ←
        finalize_active_strokes byte_length "server_rate_abuse" now (some a.actor) r.log
    (let (abuse', action) = record_rate_abuse a.actor now abuse in
        some (record {
          room = record r { log = log };
          abuse = abuse';
          rejection = code;
          finalized = finalized;
          disconnect = action.disconnect;
        }))

  unfoldable pub reject_rate_limited_drawing :
      ConnectionAttachment → ClientStrokeEvent → ℕ → Room → AbuseTable → Option Discarded
  unfolding cut_off
  reject_rate_limited_drawing a event now r abuse =
      let (r', code) = discard_ordered_event a event rate_limited r in
      if is_rate_limited code
      then cut_off a now r' abuse code
      else some (record {
        room = r';
        abuse = abuse;
        rejection = code;
        finalized = [];
        disconnect = false;
      })

  -- The branch of an emergency stop: all strokes end first, then the event is used up.
  unfoldable pub stop_drawing :
      ConnectionAttachment → ClientStrokeEvent → ℕ → Room → AbuseTable → Option Discarded
  stop_drawing a event now r abuse = do
    (log, finalized) ← finalize_active_strokes byte_length "server_emergency_control" now none r.log
    (let (r', code) =
          discard_ordered_event a event service_emergency_stop (record r { log = log }) in
        some (record {
          room = r';
          abuse = abuse;
          rejection = code;
          finalized = finalized;
          disconnect = false;
        }))
