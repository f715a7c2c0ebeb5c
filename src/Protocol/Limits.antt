-- ===== src/Protocol/Limits.antt =====
-- packages/protocol/src/types.ts: `PROTOCOL_LIMITS` and the limits derived from it.
-- Opacity is held in hundredths, since the protocol admits two decimals.
use echa.Prelude.{ℕ, ◌*◌, ◌-◌}

abbrev pub protocol_version : ℕ
protocol_version = 1

abbrev pub canvas_width : ℕ
canvas_width = 1000

abbrev pub canvas_height : ℕ
canvas_height = 1000

abbrev pub append_interval_ms : ℕ
append_interval_ms = 50

abbrev pub max_points_per_append : ℕ
max_points_per_append = 12

abbrev pub max_points_per_stroke : ℕ
max_points_per_stroke = 4096

abbrev pub max_stroke_duration_ms : ℕ
max_stroke_duration_ms = 120_000

abbrev pub max_frame_bytes : ℕ
max_frame_bytes = 65_536

abbrev pub max_room_events : ℕ
max_room_events = 100_000

abbrev pub max_room_payload_bytes : ℕ
max_room_payload_bytes = 64 * 1024 * 1024

abbrev pub room_event_reserve : ℕ
room_event_reserve = 7_000

abbrev pub room_payload_reserve_bytes : ℕ
room_payload_reserve_bytes = 8 * 1024 * 1024

abbrev pub max_room_connections : ℕ
max_room_connections = 20

abbrev pub event_rate_per_second : ℕ
event_rate_per_second = 80

abbrev pub event_rate_burst : ℕ
event_rate_burst = 120

abbrev pub cursor_rate_per_second : ℕ
cursor_rate_per_second = 20

abbrev pub cursor_rate_burst : ℕ
cursor_rate_burst = 30

abbrev pub chat_rate_per_second : ℕ
chat_rate_per_second = 2

abbrev pub chat_rate_burst : ℕ
chat_rate_burst = 5

abbrev pub max_chat_message_characters : ℕ
max_chat_message_characters = 500

abbrev pub max_chat_messages : ℕ
max_chat_messages = 100

abbrev pub chat_message_ttl_ms : ℕ
chat_message_ttl_ms = 24 * 60 * 60 * 1000

abbrev pub min_brush_size : ℕ
min_brush_size = 1

abbrev pub max_brush_size : ℕ
max_brush_size = 60

abbrev pub min_opacity : ℕ
min_opacity = 5

abbrev pub max_opacity : ℕ
max_opacity = 100

abbrev pub max_chat_display_name_characters : ℕ
max_chat_display_name_characters = 40

abbrev pub max_chat_avatar_url_characters : ℕ
max_chat_avatar_url_characters = 2_048

-- `ROOM_ACTIVITY_EVENT_LIMIT`: the soft limit, past which no stroke begins.
abbrev pub room_activity_event_limit : ℕ
room_activity_event_limit = max_room_events - room_event_reserve

-- `ROOM_ACTIVITY_PAYLOAD_LIMIT_BYTES`.
abbrev pub room_activity_payload_limit_bytes : ℕ
room_activity_payload_limit_bytes = max_room_payload_bytes - room_payload_reserve_bytes
