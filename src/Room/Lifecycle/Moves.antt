-- ===== src/Room/Lifecycle/Moves.antt =====
-- apps/realtime/src/drawing-room.ts: the statuses of a room one after another.
use echa.Prelude.{
  ℕ, ◌+◌, ◌≤◌, ◌<◌, Bool, true, false, not, ◌&&◌, ◌||◌, ◌≡◌, ◌≢◌, refl, ap, sym, ◌∙◌, Option, none,
  some, [], arith, bind-some, Bool-cases, inl, inr, ◌==◌, guarded,
}
use echa.Protocol.Messages.{RoomStrokeEvent}
use echa.Room.Log.{finalize_active_strokes}
use echa.Room.State.{
  closing_room_reads, is_closing_state, RoomCloseReason, CloseRequestId, is_blank, LifecycleStatus,
  LifecycleRow, RoomLifecycleState, waiting_since, active_since, idle_since, closing_since,
  suspended_since, room_lifecycle_state, is_over, Room,
}
use echa.Room.State
use echa.Room.Store.{
  is_uninitialized, RoomStore, is_active, is_idle, is_waiting, is_closing, is_suspended,
}
use echa.Room.Lifecycle.Statuses.{
  closing_follows, active_follows_waiting, active_follows, idle_follows, suspended_follows,
  is_closing-status, stays, moves, Moved,
}
use echa.Room.Lifecycle.{
  started, touched, Transition, arm_idle_task, arm_initial_thumbnail, start_room,
  record_room_activity, mark_room_idle, after_socket_close, suspend_open_room, suspend_room,
  close_open_room, close_existing, ensure_room_cleanup, validate_room_cleanup_job, begin_room_close,
  is_overdue, room_idle_timeout_ms,
}

arm_idle_task_lifecycle : (at : Option ℕ) (s : RoomStore) → (arm_idle_task at s).room ≡ s.room
unfolding arm_idle_task
arm_idle_task_lifecycle at s =
    elim (Bool-cases (not (is_active s.room.lifecycle.status) || s.open_sockets == 0)) [
      | inl e ↦ rw e refl
      | inr e ↦ rw e refl
    ]

arm_initial_thumbnail_lifecycle :
    (enabled : Bool) (delay at : ℕ) (s : RoomStore)
    → (arm_initial_thumbnail enabled delay at s).room ≡ s.room
unfolding arm_initial_thumbnail
arm_initial_thumbnail_lifecycle enabled delay at s =
    elim (Bool-cases (is_uninitialized s.automation.initial_thumbnail_state)) [
      | inl e ↦ rw e refl
      | inr e ↦ rw e refl
    ]

start_room-Moved :
    (enabled : Bool) (delay now : ℕ) (s : RoomStore) → Moved s (start_room enabled delay now s).0
unfolding start_room
start_room-Moved enabled delay now s = elim (Bool-cases (is_waiting s.room.lifecycle.status)) [
  | inr e ↦ rw e (stays s s refl)
  | inl e ↦
      let armed = arm_idle_task_lifecycle (some now) (started now s) in
      let both =
        arm_initial_thumbnail_lifecycle enabled delay now (arm_idle_task (some now) (started now s))
        ∙ armed in
      rw e (
        moves s _ State.LifecycleStatus.active (ap (λ (r : Room). r.lifecycle.status) both)
          (active_follows_waiting s.room.lifecycle.status e))
]

record_room_activity-Moved : (now : ℕ) (s : RoomStore) → Moved s (record_room_activity now s).0
unfolding record_room_activity
record_room_activity-Moved now s =
    elim (Bool-cases (is_active s.room.lifecycle.status || is_idle s.room.lifecycle.status)) [
      | inr e ↦ rw e (stays s s refl)
      | inl e ↦
          let armed = arm_idle_task_lifecycle (some now) (touched now s) in
          rw e (
            moves s _ State.LifecycleStatus.active (ap (λ (r : Room). r.lifecycle.status) armed)
              (active_follows s.room.lifecycle.status e))
    ]

mark_room_idle-Moved : (now : ℕ) (s : RoomStore) → Moved s (mark_room_idle now s).0
unfolding mark_room_idle
mark_room_idle-Moved now s =
    elim (Bool-cases
      (is_active s.room.lifecycle.status && is_overdue s.room.lifecycle.last_activity_at now)) [
        | inr e ↦ rw e (stays s _ (ap (λ (r : Room). r.lifecycle) (arm_idle_task_lifecycle none s)))
        | inl e ↦ rw e (
            moves s _ State.LifecycleStatus.idle refl
              (idle_follows s.room.lifecycle.status (ground arith)))
      ]

after_socket_close-Moved : (now : ℕ) (s : RoomStore) → Moved s (after_socket_close now s)
unfolding after_socket_close
after_socket_close-Moved now s =
    elim (Bool-cases (is_closing s.room.lifecycle.status || is_suspended s.room.lifecycle.status)) [
      | inl e ↦ rw e (stays s s refl)
      | inr e ↦ elim (Bool-cases (s.open_sockets == 0)) [
        | inl z ↦ rw (e, z) (stays s _ refl)
        | inr z ↦
            rw (e, z) (stays s _ (ap (λ (r : Room). r.lifecycle) (arm_idle_task_lifecycle none _)))
      ]
    ]

closing_is_over :
    (state : RoomLifecycleState) → is_closing_state state ≡ true → is_over state ≡ true
closing_is_over (waiting_since c) h = absurd (let x : ⊥ = cc h in x)
closing_is_over (active_since c a) h = absurd (let x : ⊥ = cc h in x)
closing_is_over (idle_since c a) h = absurd (let x : ⊥ = cc h in x)
closing_is_over (suspended_since c) h = refl
closing_is_over (closing_since i r a f j) h = refl

not_closing : (b : Bool) → (b ≡ true → ⊥) → b ≡ false
not_closing true h = absurd (h refl)
not_closing false h = refl

module _ (byte_length : RoomStrokeEvent → ℕ) where
  suspend_room-Moved :
      (now : ℕ) (s : RoomStore) {t : Transition}
      → suspend_room byte_length now s ≡ some t
      → Moved s t.store
  unfolding suspend_room suspend_open_room
  suspend_room-Moved now s {t} h =
      let (state, read, h1) = bind-some (room_lifecycle_state s.room.lifecycle) _ h in
      elim (Bool-cases (is_over state)) [
        | inl over ↦
            let h2 = rw over at h1 in
            let eq : s ≡ t.store =
              (let e : record { store = s; finalized = []; changed = false } ≡ t = cc h2 in
                ap (λ (x : Transition). x.store) e) in
            stays s t.store (ap (λ (x : RoomStore). x.room.lifecycle) (sym eq))
        | inr live ↦
            let h2 = rw live at h1 in
            let (r, run, h3) =
              bind-some
                (finalize_active_strokes byte_length "server_room_suspend" now none s.room.log) _
                h2 in
            let e : t.store.room.lifecycle.status ≡ State.LifecycleStatus.suspended =
              ground arith in
            moves s t.store State.LifecycleStatus.suspended e (
              suspended_follows s.room.lifecycle.status (λ closing.
                let x : ⊥ =
                  (let o = closing_is_over state (
                      closing_room_reads s.room.lifecycle
                        (is_closing-status s.room.lifecycle.status closing) read) in
                    cc (o, live)) in
                x))
      ]

  close_open_room_status :
      (id : CloseRequestId) (reason : RoomCloseReason) (now : ℕ) (s : RoomStore) {t : Transition}
      → close_open_room byte_length id reason now s ≡ some t
      → t.store.room.lifecycle.status ≡ State.LifecycleStatus.closing
  unfolding close_open_room ensure_room_cleanup
  close_open_room_status id reason now s {t} h =
      let (r, run, h1) =
        bind-some (finalize_active_strokes byte_length "server_room_close" now none s.room.log) _
          h in
      let (w, ensured, h2) = bind-some (ensure_room_cleanup id now now _) _ h1 in
      let (room_id, known, h3) = bind-some s.identity _ ensured in
      let (valid, h4) = guarded (validate_room_cleanup_job room_id id now s.object_keys) _ h3 in
      ground arith

  close_open_room-Moved :
      (id : CloseRequestId) (reason : RoomCloseReason) (now : ℕ) (s : RoomStore) {t : Transition}
      → (is_closing s.room.lifecycle.status ≡ true → ⊥)
      → close_open_room byte_length id reason now s ≡ some t
      → Moved s t.store
  close_open_room-Moved id reason now s {t} n h =
      moves s t.store State.LifecycleStatus.closing (close_open_room_status id reason now s h)
        (closing_follows s.room.lifecycle.status, not_closing _ n)

  close_existing-Moved :
      (id : CloseRequestId) (reason : RoomCloseReason) (now : ℕ) (s : RoomStore)
      (state : RoomLifecycleState) {t : Transition}
      → (is_closing s.room.lifecycle.status ≡ true → is_closing_state state ≡ true)
      → close_existing byte_length id reason now s state ≡ some t
      → Moved s t.store
  unfolding close_existing ensure_room_cleanup
  close_existing-Moved id reason now s (closing_since first r at f j) {t} n h =
      let (w, ensured, h1) = bind-some (ensure_room_cleanup first at now s) _ h in
      let (room_id, known, h2) = bind-some s.identity _ ensured in
      let (valid, h3) = guarded (validate_room_cleanup_job room_id first at s.object_keys) _ h2 in
      let same_row : t.store.room.lifecycle ≡ s.room.lifecycle = ground arith in
      stays s t.store same_row
  close_existing-Moved id reason now s (waiting_since c) n h =
      close_open_room-Moved id reason now s (λ e. let x : ⊥ = (let f = n e in cc f) in x) h
  close_existing-Moved id reason now s (active_since c a) n h =
      close_open_room-Moved id reason now s (λ e. let x : ⊥ = (let f = n e in cc f) in x) h
  close_existing-Moved id reason now s (idle_since c a) n h =
      close_open_room-Moved id reason now s (λ e. let x : ⊥ = (let f = n e in cc f) in x) h
  close_existing-Moved id reason now s (suspended_since c) n h =
      close_open_room-Moved id reason now s (λ e. let x : ⊥ = (let f = n e in cc f) in x) h

  begin_room_close-Moved :
      (id : CloseRequestId) (reason : RoomCloseReason) (now : ℕ) (s : RoomStore) {t : Transition}
      → begin_room_close byte_length id reason now s ≡ some t
      → Moved s t.store
  unfolding begin_room_close
  begin_room_close-Moved id reason now s h =
      let (state, read, h1) = bind-some (room_lifecycle_state s.room.lifecycle) _ h in
      close_existing-Moved id reason now s state
        (λ closing.
          closing_room_reads s.room.lifecycle (is_closing-status s.room.lifecycle.status closing)
            read)
        h1

-- One call of one of the methods of the module `Lifecycle`.
pub data Life (byte_length : RoomStrokeEvent → ℕ) : RoomStore → RoomStore → Type 0 where
  starts :
      (enabled : Bool) (delay now : ℕ) {s : RoomStore}
      → Life byte_length s (start_room enabled delay now s).0
  acts : (now : ℕ) {s : RoomStore} → Life byte_length s (record_room_activity now s).0
  rests : (now : ℕ) {s : RoomStore} → Life byte_length s (mark_room_idle now s).0
  leaves : (now : ℕ) {s : RoomStore} → Life byte_length s (after_socket_close now s)
  suspends :
      (now : ℕ) {s : RoomStore} {t : Transition}
      → suspend_room byte_length now s ≡ some t
      → Life byte_length s t.store
  closes :
      (id : CloseRequestId) (reason : RoomCloseReason) (now : ℕ) {s : RoomStore} {t : Transition}
      → begin_room_close byte_length id reason now s ≡ some t
      → Life byte_length s t.store

-- Whichever of `startRoom`, `recordRoomActivity`, `markRoomIdle`, `afterSocketClose`,
-- `suspendRoom` and `beginRoomClose` returns: the status moves only from waiting to active,
-- between active and idle, to suspended, and to closing, never out of suspended but to closing;
-- and a room that is closing keeps its row, with the request that closed it.
pub Life-Moved :
    (byte_length : RoomStrokeEvent → ℕ) {s s' : RoomStore} → Life byte_length s s' → Moved s s'
Life-Moved byte_length (starts enabled delay now {s}) = start_room-Moved enabled delay now s
Life-Moved byte_length (acts now {s}) = record_room_activity-Moved now s
Life-Moved byte_length (rests now {s}) = mark_room_idle-Moved now s
Life-Moved byte_length (leaves now {s}) = after_socket_close-Moved now s
Life-Moved byte_length (suspends now {s} h) = suspend_room-Moved byte_length now s h
Life-Moved byte_length (closes id reason now {s} h) =
    begin_room_close-Moved byte_length id reason now s h

-- The alarm of an active room: after the timeout it becomes idle and its task goes away; before, the
-- row stays and, with a socket open, the task is due at the end of the timeout, which lies ahead.
mark_room_idle_lem :
    (now at : ℕ) (s : RoomStore)
    → is_active s.room.lifecycle.status ≡ true
    → s.room.lifecycle.last_activity_at ≡ some at
    → let (s', marked) = mark_room_idle now s in
      (at + room_idle_timeout_ms ≤ now
        → (marked ≡ true)
          × (is_idle s'.room.lifecycle.status ≡ true)
          × (s'.tasks.idle_timeout ≡ none))
      × (now < at + room_idle_timeout_ms
          → (marked ≡ false)
            × (s'.room.lifecycle ≡ s.room.lifecycle)
            × (s.open_sockets ≢ 0 → (due : ℕ) × (s'.tasks.idle_timeout ≡ some due) × (now < due)))
unfolding mark_room_idle arm_idle_task
mark_room_idle_lem now at s live last = (
  λ over. ground arith,
  λ early.
      (ground arith, ground arith, λ someone. (at + room_idle_timeout_ms, ground arith, early)),
)
