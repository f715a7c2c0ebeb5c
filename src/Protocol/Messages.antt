-- ===== src/Protocol/Messages.antt =====
-- packages/protocol/src/types.ts: stroke events and rejections.
-- A coordinate is held in hundredths of a pixel and an opacity in hundredths, since `validation.ts`
-- admits at most two decimals, and a brush size in thousandths. Times are milliseconds.
use echa.Prelude.{ℕ, String, List, Bool, true, false}

pub record Point : Type 0 where
  pub x : ℕ
  pub y : ℕ
  pub dt : ℕ

pub data DrawingTool : Type 0 where
  brush eraser : DrawingTool

pub record StrokeStyle : Type 0 where
  pub tool : DrawingTool
  pub color : String
  pub size : ℕ
  pub opacity : ℕ

-- The fields of an event that depend on its opcode.
pub data StrokeOp : Type 0 where
  begin : StrokeStyle → Point → StrokeOp
  append : List Point → StrokeOp
  end : StrokeOp
  cancel : StrokeOp

-- `ClientStrokeEvent`; the version field is the constant 1.
pub record ClientStrokeEvent : Type 0 where
  pub client_seq : ℕ
  pub id : String
  pub op : StrokeOp

-- `RoomStrokeEvent`: what the log holds, a client's event or a server's `stroke.end`.
pub data RoomStrokeEvent : Type 0 where
  from_client : ClientStrokeEvent → RoomStrokeEvent
  auto_finalized : String → RoomStrokeEvent

abbrev pub event_id : RoomStrokeEvent → String
event_id (from_client e) = e.id
event_id (auto_finalized id) = id

pub data RejectCode : Type 0 where
  unsupported_version unknown_opcode unauthorized role_forbidden room_not_active : RejectCode
  rate_limited message_too_large invalid_field out_of_order duplicate : RejectCode
  stroke_not_found stroke_already_final room_limit_reached service_emergency_stop : RejectCode

-- `RejectMessage` without its text for people.
pub record RejectMessage : Type 0 where
  pub client_seq : ℕ
  pub code : RejectCode

pub record AcceptedStrokeEvent : Type 0 where
  pub room_seq : ℕ
  pub actor : String
  pub connection_id : String
  pub accepted_at : ℕ
  pub event : RoomStrokeEvent

pub data RoomRole : Type 0 where
  host participant viewer : RoomRole

abbrev pub is_host : RoomRole → Bool
is_host host = true
is_host _ = false

abbrev pub is_viewer : RoomRole → Bool
is_viewer viewer = true
is_viewer _ = false

abbrev pub same_role : RoomRole → RoomRole → Bool
same_role host host = true
same_role participant participant = true
same_role viewer viewer = true
same_role _ _ = false
