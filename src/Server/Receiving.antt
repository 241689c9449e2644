-- ===== src/Server/Receiving.antt =====
-- The receive buffer of a slot in src/http_server.c: what slot_finish_send keeps of it, and what
-- slot_probe_pending adds while a response is deferred.
pub mod Leftover
use http_c.Prelude.{ℕ, ◌-◌, Bool, true, false, ◌++◌, length, drop, [], ltb, leb, if◌then◌else◌}
use http_c.Common.{Bytes}
use http_c.RequestParser.{init, consumed}
use http_c.Server.{Slot, SlotState}

-- What socket_read_nb answers: bytes, try_again, or another result.
pub data Read : Type 0 where
  got : Bytes → Read
  blocked ended : Read

-- slot_finish_send on a connection that stays open, up to the feed of the bytes that are left
unfoldable pub keep_leftover : ℕ → Slot → Slot
keep_leftover now slot =
    let taken = consumed slot.parser in
    let taken' = if ltb (length slot.recv) taken then length slot.recv else taken in
    record slot {
      recv = drop taken' slot.recv;
      send = [];
      send_offset = 0;
      state = SlotState.receiving;
      last_activity_ms = now;
      parser = init;
    }

-- slot_probe_pending, for a socket that answers a request for that many bytes: the slot, and
-- whether slot_close is called on it
unfoldable pub slot_probe_pending : (ℕ → Read) → Slot → Slot × Bool
slot_probe_pending read slot =
    if leb slot.recv_buffer_size (length slot.recv)
    then (slot, false)
    else elim (read (slot.recv_buffer_size - length slot.recv)) [
      | blocked ↦ (slot, false)
      | ended ↦ (slot, true)
      | got bytes ↦ (record slot { recv = slot.recv ++ bytes }, false)
    ]
