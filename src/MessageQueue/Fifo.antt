-- ===== src/MessageQueue/Fifo.antt =====
-- What the queue of posix_message_queue.cpp promises: one list of messages in the order of their
-- pushes, from which a client takes the oldest, or the oldest of one connection.
use x_e310_multi_os.Base.{
  ℕ, List, [], ◌∷◌, ◌++◌, length, ◌==◌, if◌then◌else◌, Option, none, some, leb, is_empty,
}
use x_e310_multi_os.MessageQueue.{
  QueueMessage, QueueError, ok, full, empty, timeout, invalid_id, is_invalid_id, new_message,
}

abbrev pub Fifo : Type 0
Fifo = List QueueMessage

-- The messages of one connection, oldest first.
unfoldable pub of_conn : ℕ → Fifo → List QueueMessage
of_conn c [] = []
of_conn c (m ∷ q) = if m.cid == c then m ∷ of_conn c q else of_conn c q

unfoldable pub cids : Fifo → List ℕ
cids [] = []
cids (m ∷ q) = m.cid ∷ cids q

unfoldable pub put : ℕ → Fifo → ℕ → List ℕ → QueueError × Fifo
put capacity q c bytes =
    if is_invalid_id c
    then (invalid_id, q)
    else if leb capacity (length q)
    then (full, q)
    else (ok, q ++ (new_message c bytes ∷ []))

-- Drops the oldest message of a connection.
unfoldable pub remove_first : ℕ → Fifo → Fifo
remove_first c [] = []
remove_first c (m ∷ q) = if m.cid == c then q else m ∷ remove_first c q

-- A client that finds nothing waits: not at all, or until `later` is what the queue holds.
abbrev pub Taken : Type 0
Taken = QueueError × Fifo × Option QueueMessage

abbrev pub taken : ℕ → Fifo → QueueError → List QueueMessage → Taken
taken c q e [] = (e, q, none)
taken c q e (m ∷ r) = (ok, remove_first c q, some m)

unfoldable pub take_conn : ℕ → Fifo → ℕ → Fifo → Taken
take_conn c q timeout_ms later =
    if is_invalid_id c
    then (invalid_id, q, none)
    else if is_empty (of_conn c q)
    then if timeout_ms == 0 then (empty, q, none) else taken c later timeout (of_conn c later)
    else taken c q empty (of_conn c q)

abbrev pub taken_oldest : QueueError → Fifo → Taken
taken_oldest e [] = (e, [], none)
taken_oldest e (m ∷ q) = (ok, q, some m)

unfoldable pub take_oldest : Fifo → ℕ → Fifo → Taken
take_oldest q timeout_ms later =
    if is_empty q
    then if timeout_ms == 0 then (empty, q, none) else taken_oldest timeout later
    else taken_oldest empty q
