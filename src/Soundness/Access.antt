-- ===== src/Soundness/Access.antt =====
-- Accesses that cannot go wrong: what they answer, and the memory after them.
use oneshot.Prelude.{◌≡◌, ◌&&◌, true, false, arith}
use oneshot.Atomic.{AtomicOp}
use oneshot.Memory.{Memory, Slot, uninit, init, Model, is_racy, done, after_atomic}
use oneshot.Memory.HappensBefore.{Side, Cell, message_cell, waker_cell, has, own, touch}
use oneshot.Memory
use oneshot.Waker.{ReceiverWaker}

module _ {T : Type 0} (side : Side) where
  abbrev pub touched : Cell → Memory T → Memory T
  touched cell mem = record mem { views = touch side cell mem.views }

  pub atomic-done :
      (op : AtomicOp) (mem : Memory T)
      → mem.freed ≡ false
      → Memory.atomic side op mem ≡ done mem.state (after_atomic side op mem)
  atomic-done op mem live = ground arith

module _ {T : Type 0} (model : Model) (side : Side) (mem : Memory T)
    (live : mem.freed ≡ false) where
  pub write_message-done :
      (m : T)
      → has message_cell (own side mem.views).seen ≡ true
      → mem.message ≡ uninit
      → Memory.write_message model side m mem
        ≡ done tt (record (touched side message_cell mem) { message = init m })
  write_message-done m seen slot = ground arith

  pub take_message-done :
      (m : T)
      → has message_cell (own side mem.views).seen ≡ true
      → mem.message ≡ init m
      → Memory.take_message model side mem
        ≡ done m (record (touched side message_cell mem) { message = uninit })
  take_message-done m seen slot = ground arith

  pub read_message-done :
      (m : T)
      → has message_cell (own side mem.views).seen ≡ true
      → mem.message ≡ init m
      → Memory.read_message model side mem ≡ done m (touched side message_cell mem)
  read_message-done m seen slot = ground arith

  pub write_waker-done :
      (w : ReceiverWaker)
      → has waker_cell (own side mem.views).seen ≡ true
      → mem.waker ≡ uninit
      → Memory.write_waker model side w mem
        ≡ done tt (record (touched side waker_cell mem) { waker = init w })
  write_waker-done w seen slot = ground arith

  pub take_waker-done :
      (w : ReceiverWaker)
      → has waker_cell (own side mem.views).seen ≡ true
      → mem.waker ≡ init w
      → Memory.take_waker model side mem
        ≡ done w (record (touched side waker_cell mem) { waker = uninit })
  take_waker-done w seen slot = ground arith

  -- Nothing is leaked when both fields are empty.
  pub free-done :
      (let seen = (own side mem.views).seen in
        is_racy (seen.message && seen.waker && seen.channel) model ≡ false)
      → mem.message ≡ uninit
      → mem.waker ≡ uninit
      → mem.leaks ≡ 0
      → Memory.free model side mem ≡ done tt (record mem { freed = true; leaks = 0 })
  free-done ordered message waker tight = ground arith
