-- ===== src/Room/Lifecycle/Statuses.antt =====
-- apps/realtime/src/drawing-room.ts: which status of a room may come after which.
use echa.Prelude.{Bool, true, false, not, ◌||◌, ◌≡◌, refl}
use echa.Room.State.{LifecycleStatus, LifecycleRow, Room}
use echa.Room.State
use echa.Room.Store.{RoomStore, is_active, is_idle, is_waiting, is_closing, is_suspended}

-- The statuses that may come after one, in the order waiting, active, idle, suspended, closing.
abbrev pub may_follow : LifecycleStatus → LifecycleStatus → Bool
may_follow State.LifecycleStatus.waiting b = not (is_idle b)
may_follow State.LifecycleStatus.active b = not (is_waiting b)
may_follow State.LifecycleStatus.idle b = not (is_waiting b)
may_follow State.LifecycleStatus.suspended b = is_suspended b || is_closing b
may_follow State.LifecycleStatus.closing b = is_closing b

pub follows_itself : (a : LifecycleStatus) → may_follow a a ≡ true
follows_itself State.LifecycleStatus.waiting = refl
follows_itself State.LifecycleStatus.active = refl
follows_itself State.LifecycleStatus.idle = refl
follows_itself State.LifecycleStatus.suspended = refl
follows_itself State.LifecycleStatus.closing = refl

pub closing_follows : (a : LifecycleStatus) → may_follow a State.LifecycleStatus.closing ≡ true
closing_follows State.LifecycleStatus.waiting = refl
closing_follows State.LifecycleStatus.active = refl
closing_follows State.LifecycleStatus.idle = refl
closing_follows State.LifecycleStatus.suspended = refl
closing_follows State.LifecycleStatus.closing = refl

pub active_follows_waiting :
    (a : LifecycleStatus)
    → is_waiting a ≡ true
    → (may_follow a State.LifecycleStatus.active ≡ true) × (is_closing a ≡ false)
active_follows_waiting State.LifecycleStatus.waiting h = (refl, refl)
active_follows_waiting State.LifecycleStatus.active h = (refl, refl)
active_follows_waiting State.LifecycleStatus.idle h = (refl, refl)
active_follows_waiting State.LifecycleStatus.suspended h = absurd (let x : ⊥ = cc h in x)
active_follows_waiting State.LifecycleStatus.closing h = absurd (let x : ⊥ = cc h in x)

pub active_follows :
    (a : LifecycleStatus)
    → (is_active a || is_idle a) ≡ true
    → (may_follow a State.LifecycleStatus.active ≡ true) × (is_closing a ≡ false)
active_follows State.LifecycleStatus.waiting h = absurd (let x : ⊥ = cc h in x)
active_follows State.LifecycleStatus.active h = (refl, refl)
active_follows State.LifecycleStatus.idle h = (refl, refl)
active_follows State.LifecycleStatus.suspended h = absurd (let x : ⊥ = cc h in x)
active_follows State.LifecycleStatus.closing h = absurd (let x : ⊥ = cc h in x)

pub idle_follows :
    (a : LifecycleStatus)
    → is_active a ≡ true
    → (may_follow a State.LifecycleStatus.idle ≡ true) × (is_closing a ≡ false)
idle_follows State.LifecycleStatus.waiting h = absurd (let x : ⊥ = cc h in x)
idle_follows State.LifecycleStatus.active h = (refl, refl)
idle_follows State.LifecycleStatus.idle h = (refl, refl)
idle_follows State.LifecycleStatus.suspended h = absurd (let x : ⊥ = cc h in x)
idle_follows State.LifecycleStatus.closing h = absurd (let x : ⊥ = cc h in x)

-- One step of the lifecycle: what was allowed, and a room that is closing keeps its row.
pub record Moved (s s' : RoomStore) : Type 0 where
  pub allowed : may_follow s.room.lifecycle.status s'.room.lifecycle.status ≡ true
  pub lasting : is_closing s.room.lifecycle.status ≡ true → s'.room.lifecycle ≡ s.room.lifecycle

pub stays : (s s' : RoomStore) → s'.room.lifecycle ≡ s.room.lifecycle → Moved s s'
stays s s' e = record { allowed = rw e (follows_itself s.room.lifecycle.status); lasting = λ h. e }

pub moves :
    (s s' : RoomStore) (b : LifecycleStatus)
    → s'.room.lifecycle.status ≡ b
    → (may_follow s.room.lifecycle.status b ≡ true) × (is_closing s.room.lifecycle.status ≡ false)
    → Moved s s'
moves s s' b e h = record {
  allowed = rw e h.0;
  lasting = λ closing. absurd (let x : ⊥ = cc (closing, h.1) in x);
}

-- A room that is not closing may be suspended.
pub suspended_follows :
    (a : LifecycleStatus)
    → (is_closing a ≡ true → ⊥)
    → (may_follow a State.LifecycleStatus.suspended ≡ true) × (is_closing a ≡ false)
suspended_follows State.LifecycleStatus.waiting h = (refl, refl)
suspended_follows State.LifecycleStatus.active h = (refl, refl)
suspended_follows State.LifecycleStatus.idle h = (refl, refl)
suspended_follows State.LifecycleStatus.suspended h = (refl, refl)
suspended_follows State.LifecycleStatus.closing h = absurd (h refl)

pub is_closing-status :
    (a : LifecycleStatus) → is_closing a ≡ true → a ≡ State.LifecycleStatus.closing
is_closing-status State.LifecycleStatus.waiting h = absurd (let x : ⊥ = cc h in x)
is_closing-status State.LifecycleStatus.active h = absurd (let x : ⊥ = cc h in x)
is_closing-status State.LifecycleStatus.idle h = absurd (let x : ⊥ = cc h in x)
is_closing-status State.LifecycleStatus.suspended h = absurd (let x : ⊥ = cc h in x)
is_closing-status State.LifecycleStatus.closing h = refl
