-- ===== src/MessageQueue.antt =====
-- The desktop message queue: include/hal/message_queue_interface.h and
-- src/hal/posix_message_queue.cpp (win32_message_queue.cpp has the same bodies).
-- One side of the queue (TX or RX) is five deques, one for each connection, and the order in which
-- their messages came. A message is modelled by the bytes that it holds: `length` and the part of
-- the 256-byte array in front of it. The mutex makes each call atomic, except while it waits on the
-- condition variable: there the side is handed in as the other threads left it.
pub mod Fifo
mod Lists
pub mod Refine
use x_e310_multi_os.Base.{
  ℕ, ◌-◌, Bool, ◌||◌, List, [], ◌∷◌, ◌++◌, ltb, leb, ◌==◌, if◌then◌else◌, length, take, is_empty,
  store, Option, none, some,
}

pub data QueueError : Type 0 where
  ok full empty timeout invalid_id : QueueError

abbrev pub max_msg_data : ℕ
max_msg_data = 256

abbrev pub max_connections : ℕ
max_connections = 5

abbrev pub default_capacity : ℕ
default_capacity = 5

pub record QueueMessage : Type 0 where
  pub cid : ℕ
  pub payload : List ℕ

-- `queues` is the array of deques, by index `conn_id - 1`.
pub record Side : Type 0 where
  pub queues : ℕ → List QueueMessage
  pub order : List ℕ

-- The constructor's `capacity_`.
unfoldable pub init_capacity : ℕ → ℕ
init_capacity capacity = if capacity == 0 then default_capacity else capacity

abbrev pub no_messages : Side
no_messages = record { queues = λ i. []; order = [] }

unfoldable pub is_invalid_id : ℕ → Bool
is_invalid_id conn_id = ltb conn_id 1 || ltb max_connections conn_id

abbrev pub new_message : ℕ → List ℕ → QueueMessage
new_message conn_id bytes = record { cid = conn_id; payload = take max_msg_data bytes }

unfoldable pub push_to : ℕ → Side → ℕ → List ℕ → QueueError × Side
push_to capacity s conn_id bytes =
    if is_invalid_id conn_id
    then (invalid_id, s)
    else let q = s.queues (conn_id - 1) in
      if leb capacity (length q) || leb capacity (length s.order) then (full, s) else (
        ok,
        record {
          queues = store s.queues (conn_id - 1) (q ++ (new_message conn_id bytes ∷ []));
          order = s.order ++ (conn_id ∷ []);
        },
      )

-- `std::find` and `erase` of the first entry that is found.
unfoldable pub remove_order_entry : List ℕ → ℕ → List ℕ
remove_order_entry [] conn_id = []
remove_order_entry (c ∷ order) conn_id =
    if c == conn_id then order else c ∷ remove_order_entry order conn_id

abbrev pub take_front : Side → ℕ → List QueueMessage → QueueError × Side × Option QueueMessage
take_front s conn_id [] = (empty, s, none)
take_front s conn_id (m ∷ q) = (
  ok,
  record { queues = store s.queues (conn_id - 1) q; order = remove_order_entry s.order conn_id },
  some m,
)

-- `woken` is the side when `wait_for` returns; the wait succeeded if the deque is not empty then.
unfoldable pub pop_from : Side → ℕ → ℕ → Side → QueueError × Side × Option QueueMessage
pop_from s conn_id timeout_ms woken =
    if is_invalid_id conn_id
    then (invalid_id, s, none)
    else if is_empty (s.queues (conn_id - 1))
    then if timeout_ms == 0
      then (empty, s, none)
      else if is_empty (woken.queues (conn_id - 1))
      then (timeout, woken, none)
      else take_front woken conn_id (woken.queues (conn_id - 1))
    else take_front s conn_id (s.queues (conn_id - 1))

abbrev pub pop_queue :
    Side → ℕ → List ℕ → List QueueMessage → QueueError × Side × Option QueueMessage
pop_queue s conn_id rest [] = (empty, s, none)
pop_queue s conn_id rest (m ∷ q) =
    (ok, record { queues = store s.queues (conn_id - 1) q; order = rest }, some m)

abbrev pub take_next : Side → List ℕ → QueueError × Side × Option QueueMessage
take_next s [] = (empty, s, none)
take_next s (conn_id ∷ rest) = pop_queue s conn_id rest (s.queues (conn_id - 1))

unfoldable pub pop_next_from : Side → ℕ → Side → QueueError × Side × Option QueueMessage
pop_next_from s timeout_ms woken =
    if is_empty s.order
    then if timeout_ms == 0
      then (empty, s, none)
      else if is_empty woken.order
      then (timeout, woken, none)
      else take_next woken woken.order
    else take_next s s.order

-- `tx_count` and `rx_count`.
unfoldable pub count : Side → ℕ → ℕ
count s conn_id = if is_invalid_id conn_id then 0 else length (s.queues (conn_id - 1))
