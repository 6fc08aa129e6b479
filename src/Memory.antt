-- ===== src/Memory.antt =====
-- The heap object of src/channel.rs, `Channel<T>`, and the accesses that a program makes to it.
-- Beside the three fields of the struct the record holds what the allocator, the parking thread and
-- the executor see, and who has seen which access (Memory/HappensBefore.antt).
pub mod HappensBefore
use oneshot.Prelude.{ℕ, suc, ◌+◌, Bool, true, false, ◌&&◌, ◌==◌, if◌then◌else◌, List, [], ◌∷◌}
use oneshot.Atomic.{
  Ordering, AtomicOp, load, store, swap, fetch_add, fetch_xor, compare_exchange, acquires, releases,
  value_after,
}
use oneshot.Waker.{ReceiverWaker, thread, task}
use HappensBefore.{
  Cell, Side, View, ThreadView, Views, message_cell, waker_cell, channel_cell, has, none_seen,
  all_seen, initial_views, own, other, touch, read_with, rmw_with, store_with, fence_with,
}

-- A `MaybeUninit` field: `uninit` also after its value was moved out or dropped.
pub data Slot (A : Type 0) : Type 0 where
  uninit : Slot A
  init : A → Slot A

pub record Memory (T : Type 0) : Type 0 where
  pub state : ℕ
  pub message : Slot T
  pub waker : Slot ReceiverWaker
  pub freed : Bool
  -- initialised values that were overwritten or freed without their destructor
  pub leaks : ℕ
  -- the park token of the receiver's thread
  pub token : Bool
  -- the tasks that were woken
  pub woken : List ℕ
  pub clock : ℕ
  pub views : Views

-- How an access can go wrong. `uninit_read` is also the second read of a value that was moved out.
pub data Fault : Type 0 where
  use_after_free uninit_read data_race : Fault

pub data Access (A T : Type 0) : Type 0 where
  done : A → Memory T → Access A T
  fault : Fault → Access A T

-- Whether conflicting accesses must be ordered by happens-before. Under `interleaving` the accesses
-- only have to hit live and initialised memory.
pub data Model : Type 0 where
  interleaving release_acquire : Model

abbrev pub is_racy : Bool → Model → Bool
is_racy true model = false
is_racy false interleaving = false
is_racy false release_acquire = true

module _ {T : Type 0} (side : Side) where
  abbrev views_after : AtomicOp → Memory T → Views → Views
  views_after (load o) mem vs = read_with side (acquires o) vs
  views_after (store v o) mem vs = store_with side (releases o) vs
  views_after (swap v o) mem vs = rmw_with side o vs
  views_after (fetch_add v o) mem vs = rmw_with side o vs
  views_after (fetch_xor v o) mem vs = rmw_with side o vs
  views_after (compare_exchange c v o f) mem vs =
      if mem.state == c then rmw_with side o vs else read_with side (acquires f) vs

  abbrev pub after_atomic : AtomicOp → Memory T → Memory T
  after_atomic op mem = record mem {
    state = value_after op mem.state;
    views = views_after op mem (touch side channel_cell mem.views);
  }

  -- An atomic operation never races with another one, but is a use of the allocation.
  abbrev pub atomic : AtomicOp → Memory T → Access ℕ T
  atomic op mem = if mem.freed then fault use_after_free else done mem.state (after_atomic op mem)

  -- A fence touches no memory.
  abbrev pub fence : Ordering → Memory T → Memory T
  fence o mem = record mem { views = fence_with side (acquires o) mem.views }

module _ {T : Type 0} (model : Model) (side : Side) where
  -- A non-atomic access to `cell`.
  abbrev pub access : {A : Type 0} → Cell → Memory T → (Memory T → Access A T) → Access A T
  access cell mem k =
      if mem.freed
      then fault use_after_free
      else if is_racy (has cell (own side mem.views).seen) model
      then fault data_race
      else k (record mem { views = touch side cell mem.views })

  abbrev pub write_message : T → Memory T → Access (Unit {0}) T
  write_message m mem = access message_cell mem λ mem'. elim mem.message [
    | uninit ↦ done tt (record mem' { message = init m })
    | init _ ↦ done tt (record mem' { message = init m; leaks = suc mem.leaks })
  ]

  -- `read_message` leaves the message in its place, `take_message` moves it out.
  abbrev pub read_message : Memory T → Access T T
  read_message mem =
      access message_cell mem
        λ mem'. elim mem.message [ uninit ↦ fault uninit_read | init m ↦ done m mem' ]

  abbrev pub take_message : Memory T → Access T T
  take_message mem = access message_cell mem λ mem'. elim mem.message [
    | uninit ↦ fault uninit_read
    | init m ↦ done m (record mem' { message = uninit })
  ]

  abbrev pub write_waker : ReceiverWaker → Memory T → Access (Unit {0}) T
  write_waker w mem = access waker_cell mem λ mem'. elim mem.waker [
    | uninit ↦ done tt (record mem' { waker = init w })
    | init _ ↦ done tt (record mem' { waker = init w; leaks = suc mem.leaks })
  ]

  abbrev pub take_waker : Memory T → Access ReceiverWaker T
  take_waker mem = access waker_cell mem λ mem'. elim mem.waker [
    | uninit ↦ fault uninit_read
    | init w ↦ done w (record mem' { waker = uninit })
  ]

  abbrev live_slots : Memory T → ℕ
  live_slots mem =
      elim mem.message [ uninit ↦ 0 | init _ ↦ 1 ] + elim mem.waker [ uninit ↦ 0 | init _ ↦ 1 ]

  -- `drop(Box::from_raw(channel))`: the fields are `MaybeUninit`, so nothing in them is dropped.
  abbrev pub free : Memory T → Access (Unit {0}) T
  free mem =
      let seen = (own side mem.views).seen in
      if mem.freed
      then fault use_after_free
      else if is_racy (seen.message && seen.waker && seen.channel) model
      then fault data_race
      else done tt (record mem { freed = true; leaks = mem.leaks + live_slots mem })

module _ {T : Type 0} where
  -- `Thread::unpark` or `Waker::wake`.
  abbrev pub wake : ReceiverWaker → Memory T → Memory T
  wake thread mem = record mem { token = true }
  wake (task i) mem = record mem { woken = i ∷ mem.woken }

  -- `Channel::new` on the heap, at time `clock`.
  unfoldable pub fresh : ℕ → Memory T
  fresh clock = record {
    state = 0b011;
    message = uninit;
    waker = uninit;
    freed = false;
    leaks = 0;
    token = false;
    woken = [];
    clock = clock;
    views = initial_views;
  }
