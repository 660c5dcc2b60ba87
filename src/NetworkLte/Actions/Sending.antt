-- ===== src/NetworkLte/Actions/Sending.antt =====
-- `send_data` of src/network_lte.cpp empties the TX queue, each message in the order of the pushes.
use x_e310_multi_os.Base.{ℕ, zero, suc, ◌≡◌, ◌<◌, refl, List, [], ◌∷◌, length, arith}
use x_e310_multi_os.Modem.Interface.{Xe310}
use x_e310_multi_os.MessageQueue.{Side, QueueMessage, pop_next_from}
use x_e310_multi_os.MessageQueue.Fifo.{Fifo, take_oldest}
use x_e310_multi_os.MessageQueue.Refine.{Holds, pop_next_refines}
use x_e310_multi_os.NetworkLte.State.{NetworkLte}
use x_e310_multi_os.NetworkLte.Actions.Data.{send_loop, send_message}

module _ {X : Type 0} (m : Xe310 X) where
  -- The messages sent one after the other.
  unfoldable pub send_all : List QueueMessage → NetworkLte X → NetworkLte X
  send_all [] s = s
  send_all (msg ∷ q) s = send_all q (send_message m msg s)

  -- With fuel for one more message than there are, the loop handles all messages, the oldest first,
  -- and leaves none.
  pub send_loop_lem :
      (capacity fuel : ℕ) (q : Fifo) (tx : Side) (s : NetworkLte X)
      → Holds capacity q tx
      → length q < fuel
      → ((send_loop m fuel tx s).1 ≡ send_all q s) × Holds capacity [] (send_loop m fuel tx s).0
  unfolding send_loop send_all take_oldest
  send_loop_lem capacity zero q tx s h lt = absurd (omega arith)
  send_loop_lem capacity (suc fuel) [] tx s h lt =
      let (e, none_left, rest) = pop_next_refines capacity 0 h h in
      rw (none_left, send_loop) (refl, rest)
  send_loop_lem capacity (suc fuel) (msg ∷ q) tx s h lt =
      let (e, found, rest) = pop_next_refines capacity 0 h h in
      rw (found, send_loop)
        (send_loop_lem capacity fuel q (pop_next_from tx 0 tx).1 (send_message m msg s) rest
          (omega arith))
