-- ===== src/MessageChannel/Fifo.antt =====
-- What a message channel promises: a queue of at most `capacity` frames, first in, first out.
use x_e310_multi_os.Base.{
  ℕ, List, [], ◌∷◌, ◌++◌, length, ◌==◌, if◌then◌else◌, leb, is_empty, Option, none, some,
}
use x_e310_multi_os.MessageChannel.{
  MessageChannelError, ok, full, empty, timeout, invalid_size, bad_size, bytes_at,
}

abbrev pub Fifo : Type 0
Fifo = List (List ℕ)

-- A sender that finds no room waits: not at all, or until `later` is what the channel holds.
unfoldable pub offer : ℕ → Fifo → Option (List ℕ) → ℕ → ℕ → Fifo → MessageChannelError × Fifo
offer capacity q bytes n timeout_ms later =
    if bad_size bytes n
    then (invalid_size, q)
    else if leb capacity (length q)
    then if timeout_ms == 0
      then (full, q)
      else if leb capacity (length later)
      then (timeout, later)
      else (ok, later ++ (bytes_at bytes n ∷ []))
    else (ok, q ++ (bytes_at bytes n ∷ []))

abbrev pub front : MessageChannelError → Fifo → MessageChannelError × Fifo × Option (List ℕ)
front e [] = (e, [], none)
front e (f ∷ q) = (ok, q, some f)

unfoldable pub poll : Fifo → ℕ → Fifo → MessageChannelError × Fifo × Option (List ℕ)
poll q timeout_ms later =
    if is_empty q
    then if timeout_ms == 0 then (empty, q, none) else front timeout later
    else front empty q
