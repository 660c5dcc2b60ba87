-- ===== src/ModemController/Port.antt =====
-- `UartInterface` (include/hal/uart_interface.h): the operations of a serial line `U`, and the clock
-- that the command timer reads. A read is told how many bytes its buffer takes and how long it may
-- wait, and gives back the bytes it read.
use x_e310_multi_os.Base.{ℕ, Bool, List}

pub data UartError : Type 0 where
  ok timeout write_failed read_failed port_not_open invalid_config : UartError

pub record UartConfig : Type 0 where
  pub baud_rate : ℕ
  pub data_bits : ℕ
  pub stop_bits : ℕ
  pub timeout_ms : ℕ

pub record Uart (U : Type 0) : Type 0 where
  pub open_port : List ℕ → UartConfig → U → UartError × U
  pub close : U → U
  pub is_open : U → Bool
  pub write : List ℕ → U → UartError × U
  pub read : ℕ → ℕ → U → UartError × List ℕ × U
  pub now : U → ℕ
