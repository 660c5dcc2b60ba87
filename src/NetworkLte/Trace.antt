-- ===== src/NetworkLte/Trace.antt =====
-- The trace buffer of src/network_lte.cpp (`push_trace`, `pop_trace`): a ring of ten entries in
-- which a new entry takes the place of the oldest when it is full. The mutex makes each call
-- atomic, except while `pop_trace` waits; there the ring is handed in as it was left, `woken`.
pub mod Refine
use x_e310_multi_os.Base.{ℕ, ◌+◌, ◌-◌, ◌%◌, ltb, ◌==◌, if◌then◌else◌, store, Option, none, some}
use x_e310_multi_os.NetworkLte.Types.{
  NetworkLteState, NetworkLteEvent, ModemAction, NetworkTraceKind,
}

pub record NetworkTraceEntry : Type 0 where
  pub kind : NetworkTraceKind
  pub previous_state : NetworkLteState
  pub current_state : NetworkLteState
  pub event : NetworkLteEvent
  pub action : ModemAction

abbrev pub trace_capacity : ℕ
trace_capacity = 10

pub record TraceRing : Type 0 where
  pub buffer : ℕ → NetworkTraceEntry
  pub head : ℕ
  pub count : ℕ

abbrev pub new_trace : (ℕ → NetworkTraceEntry) → TraceRing
new_trace buffer = record { buffer = buffer; head = 0; count = 0 }

unfoldable pub push_trace : TraceRing → NetworkTraceEntry → TraceRing
push_trace t entry =
    if ltb t.count trace_capacity
    then record t {
      buffer = store t.buffer ((t.head + t.count) % trace_capacity) entry;
      count = t.count + 1;
    }
    else record t { buffer = store t.buffer t.head entry; head = (t.head + 1) % trace_capacity }

abbrev pub take_entry : TraceRing → TraceRing × Option NetworkTraceEntry
take_entry t =
    (record t { head = (t.head + 1) % trace_capacity; count = t.count - 1 }, some (t.buffer t.head))

-- `wait_for_data` with no timeout only looks.
unfoldable pub pop_trace : TraceRing → ℕ → TraceRing → TraceRing × Option NetworkTraceEntry
pop_trace t timeout_ms woken =
    if timeout_ms == 0
    then if ltb 0 t.count then take_entry t else (t, none)
    else if ltb 0 t.count
    then take_entry t
    else if ltb 0 woken.count
    then take_entry woken
    else (woken, none)
