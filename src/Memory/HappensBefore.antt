-- ===== src/Memory/HappensBefore.antt =====
-- The happens-before relation between the two threads, kept as vector clocks keep it: for each cell
-- and each side, whether all accesses of the other side so far are known to have happened before.
use oneshot.Prelude.{Bool, true, false, ◌||◌, if◌then◌else◌}
use oneshot.Atomic.{Ordering, acquires, releases}

-- What is accessed: the message field, the waker field, the allocation as a whole.
pub data Cell : Type 0 where
  message_cell waker_cell channel_cell : Cell

pub data Side : Type 0 where
  sender receiver : Side

-- A set of cells.
pub record View : Type 0 where
  pub message : Bool
  pub waker : Bool
  pub channel : Bool

abbrev pub has : Cell → View → Bool
has message_cell v = v.message
has waker_cell v = v.waker
has channel_cell v = v.channel

abbrev pub none_seen : View
none_seen = record { message = false; waker = false; channel = false }

abbrev pub all_seen : View
all_seen = record { message = true; waker = true; channel = true }

abbrev join : View → View → View
join v w = record {
  message = v.message || w.message;
  waker = v.waker || w.waker;
  channel = v.channel || w.channel;
}

abbrev clear : Cell → View → View
clear message_cell v = record v { message = false }
clear waker_cell v = record v { waker = false }
clear channel_cell v = record v { channel = false }

-- `seen`: cells of which all accesses by the other side happened before this thread's next step.
-- `pending`: those that an acquire fence would add. `released`: those of which all accesses by
-- this thread are published with the present value of the state.
pub record ThreadView : Type 0 where
  pub seen : View
  pub pending : View
  pub released : View

pub record Views : Type 0 where
  pub sender : ThreadView
  pub receiver : ThreadView

abbrev pub own : Side → Views → ThreadView
own sender vs = vs.sender
own receiver vs = vs.receiver

abbrev pub other : Side → Views → ThreadView
other sender vs = vs.receiver
other receiver vs = vs.sender

abbrev with_own : Side → Views → ThreadView → Views
with_own sender vs v = record vs { sender = v }
with_own receiver vs v = record vs { receiver = v }

abbrev with_other : Side → Views → ThreadView → Views
with_other sender vs v = record vs { receiver = v }
with_other receiver vs v = record vs { sender = v }

-- Before the endpoints are handed out nothing was accessed.
abbrev pub initial_views : Views
initial_views =
    let start : ThreadView = record { seen = all_seen; pending = all_seen; released = all_seen } in
    record { sender = start; receiver = start }

module _ (side : Side) where
  -- A new access: it is not published, and the other side has not seen it.
  abbrev pub touch : Cell → Views → Views
  touch cell vs =
      let mine = own side vs in
      let theirs = other side vs in
      with_other side (with_own side vs (record mine { released = clear cell mine.released }))
        (record theirs { seen = clear cell theirs.seen; pending = clear cell theirs.pending })

  -- The reading half of an operation: an acquire sees what the value carries, and a relaxed read
  -- leaves it to a later fence.
  abbrev pub read_with : Bool → Views → Views
  read_with acquiring vs =
      let mine = own side vs in
      let carried = (other side vs).released in
      with_own side vs (record mine {
        seen = if acquiring then join mine.seen carried else mine.seen;
        pending = join mine.pending carried;
      })

  -- The writing half of a read-modify-write goes on with the release sequence that it finds.
  abbrev write_rmw : Bool → Views → Views
  write_rmw releasing vs =
      let mine = own side vs in
      let theirs = other side vs in
      if releasing
      then with_other side (with_own side vs (record mine { released = all_seen }))
          (record theirs { released = join theirs.released mine.seen })
      else vs

  abbrev pub rmw_with : Ordering → Views → Views
  rmw_with o vs = write_rmw (releases o) (read_with (acquires o) vs)

  -- A plain store ends it.
  abbrev pub store_with : Bool → Views → Views
  store_with releasing vs =
      let mine = own side vs in
      let theirs = other side vs in
      with_other side
        (with_own side vs (record mine { released = if releasing then all_seen else none_seen }))
        (record theirs { released = if releasing then mine.seen else none_seen })

  abbrev pub fence_with : Bool → Views → Views
  fence_with acquiring vs =
      let mine = own side vs in
      with_own side vs
        (record mine { seen = if acquiring then join mine.seen mine.pending else mine.seen })
