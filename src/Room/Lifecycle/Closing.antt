-- ===== src/Room/Lifecycle/Closing.antt =====
-- apps/realtime/src/drawing-room.ts: what `beginRoomClose` and `suspendRoom` leave behind.
use echa.Prelude.{
  ℕ, String, true, false, ◌≡◌, refl, ap, ◌∙◌, Option, none, some, List, [], ◌∷◌, is_some, count,
  update, length, arith, bind_of, Option-cases, Bool-cases, inl, inr,
}
use echa.Protocol.Messages.{RoomStrokeEvent}
use echa.Room.Log.{wanted}
use echa.Room.Log.Events.{EventsInv}
use echa.Room.Log.Finalize.{HasUniqueIds, finalize_active_strokes_lem}
use echa.Room.State
use echa.Room.State.{
  RoomCloseReason, CloseRequestId, is_blank, LifecycleRow, RoomLifecycleState, waiting_since,
  active_since, idle_since, closing_since, suspended_since, room_lifecycle_state, is_over,
  is_closing_state,
}
use echa.Room.Store.{no_tasks, JobStatus, is_queued, RoomStore, RoomCleanup, set_lifecycle}
use echa.Room.Lifecycle.{
  supersede, Transition, validate_room_cleanup_job, wind_down, insert_cleanup, ensure_room_cleanup,
  suspend_open_room, suspend_room, close_open_room, close_existing, begin_room_close,
}

none_queued : (jobs : List JobStatus) → count is_queued (update is_queued supersede jobs) ≡ 0
none_queued [] = refl
none_queued (j ∷ js) = ground (arith, none_queued js)

-- A room that was wound down: no stroke is active, nothing is scheduled, no ticket is left, and no
-- job of a snapshot waits; as many events are announced as strokes were active.
pub record IsWoundDown (s : RoomStore) (t : Transition) : Type 0 where
  pub changed : t.changed ≡ true
  pub ended : count (wanted none) t.store.room.log.strokes ≡ 0
  pub announced : length t.finalized ≡ count (wanted none) s.room.log.strokes
  pub consistent : EventsInv s.room.log → EventsInv t.store.room.log
  pub idle : t.store.tasks ≡ no_tasks
  pub tickets : t.store.tickets ≡ []
  pub read_tickets : t.store.read_tickets ≡ []
  pub jobs : count is_queued t.store.jobs ≡ 0

ensured :
    (id : CloseRequestId) (started_at now : ℕ) (s : RoomStore) {room_id : String}
    → s.identity ≡ some room_id
    → validate_room_cleanup_job room_id id started_at s.object_keys ≡ true
    → ensure_room_cleanup id started_at now s
      ≡ some (record s {
        cleanup =
            insert_cleanup
              (record {
                close_request_id = id;
                requested_at = started_at;
                snapshot_object_keys = s.object_keys;
                next_enqueue_at = now;
              })
              s.cleanup;
      })
unfolding ensure_room_cleanup
ensured id started_at now s known valid = bind_of _ known ∙ rw valid refl

kept_cleanup :
    (job : RoomCleanup) {c : RoomCleanup} {present : Option RoomCleanup}
    → present ≡ some c
    → insert_cleanup job present ≡ present
kept_cleanup job e = rw e refl

module _ (byte_length : RoomStrokeEvent → ℕ) where
  close_open_room_lem :
      (id : CloseRequestId) (reason : RoomCloseReason) (now : ℕ) (s : RoomStore) {room_id : String}
      → s.identity ≡ some room_id
      → HasUniqueIds s.room.log.strokes
      → is_blank id ≡ false
      → validate_room_cleanup_job room_id id now s.object_keys ≡ true
      → (t : Transition) × (close_open_room byte_length id reason now s ≡ some t)
        × IsWoundDown s t
        × (room_lifecycle_state t.store.room.lifecycle
            ≡ some (
                closing_since id reason now
                  (count (wanted none) s.room.log.strokes)
                  (count is_queued s.jobs)))
        × (t.store.identity ≡ some room_id)
        × (t.store.object_keys ≡ s.object_keys)
        × (is_some t.store.cleanup ≡ true)
        × (s.cleanup ≡ none
            → t.store.cleanup
              ≡ some (record {
                close_request_id = id;
                requested_at = now;
                snapshot_object_keys = s.object_keys;
                next_enqueue_at = now;
              }))
  unfolding close_open_room ensure_room_cleanup room_lifecycle_state
  close_open_room_lem id reason now s {room_id} known u fine valid =
      let (l', out, run, rows, gone, many, metric, numbers, keeps, others) =
        finalize_active_strokes_lem byte_length "server_room_close" now none s.room.log u in
      let row : LifecycleRow = record s.room.lifecycle {
        status = State.LifecycleStatus.closing;
        status_changed_at = now;
        close_request_id = some id;
        close_reason = some reason;
        closing_started_at = some now;
        finalized_stroke_count = length out;
        superseded_snapshot_job_count = count is_queued s.jobs;
      } in
      let wound : RoomStore = set_lifecycle row (wind_down l' s) in
      let job : RoomCleanup = record {
        close_request_id = id;
        requested_at = now;
        snapshot_object_keys = s.object_keys;
        next_enqueue_at = now;
      } in
      let t : Transition = record {
        store = record wound { cleanup = insert_cleanup job s.cleanup };
        finalized = out;
        changed = true;
      } in
      (
        t,
        bind_of _ run ∙ bind_of _ (ensured id now now wound known valid),
        record {
          changed = refl;
          ended = gone;
          announced = many;
          consistent = keeps;
          idle = refl;
          tickets = refl;
          read_tickets = refl;
          jobs = none_queued s.jobs;
        },
        rw fine (ap (λ n. some (closing_since id reason now n (count is_queued s.jobs))) many),
        known,
        refl,
        elim (Option-cases s.cleanup) [ inl e ↦ rw e refl | inr (c, e) ↦ rw e refl ],
        λ e. rw e refl,
      )

  -- A room that is not closing yet.
  close_existing_lem :
      (id : CloseRequestId) (reason : RoomCloseReason) (now : ℕ) (s : RoomStore)
      (state : RoomLifecycleState)
      → is_closing_state state ≡ false
      → close_existing byte_length id reason now s state
        ≡ close_open_room byte_length id reason now s
  unfolding close_existing
  close_existing_lem id reason now s (waiting_since c) h = refl
  close_existing_lem id reason now s (active_since c a) h = refl
  close_existing_lem id reason now s (idle_since c a) h = refl
  close_existing_lem id reason now s (suspended_since c) h = refl
  close_existing_lem id reason now s (closing_since i r a f j) h = absurd (let x : ⊥ = cc h in x)

  -- A room that is closing already.
  begin_room_close_again :
      (id first : CloseRequestId) (reason r : RoomCloseReason) (at f j now : ℕ) (s : RoomStore)
      {room_id : String}
      → s.identity ≡ some room_id
      → validate_room_cleanup_job room_id first at s.object_keys ≡ true
      → is_some s.cleanup ≡ true
      → room_lifecycle_state s.room.lifecycle ≡ some (closing_since first r at f j)
      → begin_room_close byte_length id reason now s
        ≡ some (record { store = s; finalized = []; changed = false })
  unfolding begin_room_close close_existing
  begin_room_close_again id first reason r at f j now s known valid there read =
      elim (Option-cases s.cleanup) [
        | inl e ↦ absurd (let x : ⊥ = ground arith in x)
        | inr (c, e) ↦
            bind_of _ read
            ∙ bind_of _ (ensured first at now s known valid)
            ∙ ap
                (λ k.
                  some
                    (record { store = record s { cleanup = k }; finalized = []; changed = false }))
                (kept_cleanup _ e)
      ]

  -- A room with an identity, with unique keys of its strokes, whose state is readable and not
  -- closing, is closed by a request with an identifier, provided the job of cleanup is valid: the
  -- identifiers match their pattern, and the keys of the snapshots are at most 1,000, different,
  -- in the room's folder and not too long. The call does not throw; no stroke stays active and as
  -- many events are announced as strokes were active, nothing stays scheduled, no ticket is left
  -- and no job waits; the state read afterwards tells the request, its time and the numbers; and a
  -- job of cleanup is there. Any later request changes nothing.
  pub begin_room_close_lem :
      (id : CloseRequestId) (reason : RoomCloseReason) (now : ℕ) (s : RoomStore) {room_id : String}
      {state : RoomLifecycleState}
      → s.identity ≡ some room_id
      → HasUniqueIds s.room.log.strokes
      → is_blank id ≡ false
      → validate_room_cleanup_job room_id id now s.object_keys ≡ true
      → room_lifecycle_state s.room.lifecycle ≡ some state
      → is_closing_state state ≡ false
      → (t : Transition) × (begin_room_close byte_length id reason now s ≡ some t)
        × IsWoundDown s t
        × (room_lifecycle_state t.store.room.lifecycle
            ≡ some (
                closing_since id reason now
                  (count (wanted none) s.room.log.strokes)
                  (count is_queued s.jobs)))
        × (is_some t.store.cleanup ≡ true)
        × ((other : CloseRequestId) (why : RoomCloseReason) (later : ℕ)
            → begin_room_close byte_length other why later t.store
              ≡ some (record { store = t.store; finalized = []; changed = false }))
  unfolding begin_room_close
  begin_room_close_lem id reason now s {room_id} {state} known u fine valid read open_yet =
      let (t, run, down, state_after, still_known, same_keys, job, new_job) =
        close_open_room_lem id reason now s known u fine valid in
      (
        t,
        bind_of _ read ∙ close_existing_lem id reason now s state open_yet ∙ run,
        down,
        state_after,
        job,
        λ other why later.
            begin_room_close_again other id why reason now (count (wanted none) s.room.log.strokes)
              (count is_queued s.jobs) later t.store still_known
              (ap (λ keys. validate_room_cleanup_job room_id id now keys) same_keys ∙ valid) job
              state_after,
      )

  -- A room with unique keys of its strokes, in a readable state, is suspended unless it is suspended or
  -- closing already: the call does not throw, and the room is wound down and reads as suspended.
  suspend_room_lem :
      (now : ℕ) (s : RoomStore) {state : RoomLifecycleState}
      → HasUniqueIds s.room.log.strokes
      → room_lifecycle_state s.room.lifecycle ≡ some state
      → (t : Transition) × (suspend_room byte_length now s ≡ some t)
        × (is_over state ≡ true → t ≡ record { store = s; finalized = []; changed = false })
        × (is_over state ≡ false
            → IsWoundDown s t
              × (room_lifecycle_state t.store.room.lifecycle ≡ some (suspended_since now)))
  unfolding suspend_room suspend_open_room room_lifecycle_state
  suspend_room_lem now s {state} u read = elim (Bool-cases (is_over state)) [
    | inl over ↦ (
      record { store = s; finalized = []; changed = false },
      bind_of _ read ∙ (rw over refl),
      λ h. refl,
      λ h. absurd (let x : ⊥ = cc (over, h) in x),
    )
    | inr live ↦
        let (l', out, run, rows, gone, many, metric, numbers, keeps, others) =
          finalize_active_strokes_lem byte_length "server_room_suspend" now none s.room.log u in
        let row : LifecycleRow = record s.room.lifecycle {
          status = State.LifecycleStatus.suspended;
          status_changed_at = now;
          close_request_id = none;
          close_reason = none;
          closing_started_at = none;
          finalized_stroke_count = length out;
          superseded_snapshot_job_count = count is_queued s.jobs;
        } in
        let t : Transition = record {
          store = set_lifecycle row (wind_down l' s);
          finalized = out;
          changed = true;
        } in
        (
          t,
          bind_of _ read ∙ (rw live (bind_of _ run)),
          λ h. absurd (let x : ⊥ = cc (live, h) in x),
          λ h. (
            record {
              changed = refl;
              ended = gone;
              announced = many;
              consistent = keeps;
              idle = refl;
              tickets = refl;
              read_tickets = refl;
              jobs = none_queued s.jobs;
            },
            refl,
          ),
        )
  ]
