-- ===== src/MessageChannel.antt =====
-- The desktop message channel: include/hal/message_channel_interface.h and
-- src/hal/posix_message_channel.cpp (win32_message_channel.cpp has the same bodies).
-- A ring of sixteen frames of which `capacity` may be in use. A frame is modelled by the bytes that
-- it holds, `length` of them; what an earlier frame left behind them in the array is not. A wait on
-- a condition variable hands in the channel as the other threads left it, `woken`.
pub mod Fifo
pub mod Refine
use x_e310_multi_os.Base.{
  ℕ, ◌+◌, ◌-◌, ◌%◌, Bool, true, false, ◌||◌, ◌&&◌, not, List, [], ltb, leb, ◌==◌, if◌then◌else◌,
  take, store, Option, none, some,
}

pub data MessageChannelError : Type 0 where
  ok full empty timeout invalid_argument invalid_size : MessageChannelError

abbrev pub message_channel_max_data : ℕ
message_channel_max_data = 512

-- `DEFAULT_CAPACITY`, which is also `MAX_CAPACITY`.
abbrev pub max_capacity : ℕ
max_capacity = 16

pub record Channel : Type 0 where
  pub capacity : ℕ
  pub buffer : ℕ → List ℕ
  pub head : ℕ
  pub tail : ℕ
  pub count : ℕ

unfoldable pub new_channel : ℕ → Channel
new_channel capacity = record {
  capacity = if capacity == 0 || ltb max_capacity capacity then max_capacity else capacity;
  buffer = λ i. [];
  head = 0;
  tail = 0;
  count = 0;
}

-- What `data` points to; `none` is the null pointer.
abbrev pub bytes_at : Option (List ℕ) → ℕ → List ℕ
bytes_at none length = []
bytes_at (some bytes) length = take length bytes

abbrev pub is_null : Option (List ℕ) → Bool
is_null none = true
is_null (some bytes) = false

unfoldable pub bad_size : Option (List ℕ) → ℕ → Bool
bad_size bytes length = is_null bytes && not (length == 0) || ltb message_channel_max_data length

abbrev pub put_frame : Channel → List ℕ → Channel
put_frame ch frame = record ch {
  buffer = store ch.buffer ch.tail frame;
  tail = (ch.tail + 1) % max_capacity;
  count = ch.count + 1;
}

unfoldable pub send : Channel → Option (List ℕ) → ℕ → ℕ → Channel → MessageChannelError × Channel
send ch bytes length timeout_ms woken =
    if bad_size bytes length
    then (invalid_size, ch)
    else if leb ch.capacity ch.count
    then if timeout_ms == 0
      then (full, ch)
      else if leb woken.capacity woken.count
      then (timeout, woken)
      else (ok, put_frame woken (bytes_at bytes length))
    else (ok, put_frame ch (bytes_at bytes length))

abbrev pub get_frame : Channel → MessageChannelError × Channel × Option (List ℕ)
get_frame ch = (
  ok,
  record ch { head = (ch.head + 1) % max_capacity; count = ch.count - 1 },
  some (ch.buffer ch.head),
)

unfoldable pub receive : Channel → ℕ → Channel → MessageChannelError × Channel × Option (List ℕ)
receive ch timeout_ms woken =
    if ch.count == 0
    then if timeout_ms == 0
      then (empty, ch, none)
      else if woken.count == 0
      then (timeout, woken, none)
      else get_frame woken
    else get_frame ch
