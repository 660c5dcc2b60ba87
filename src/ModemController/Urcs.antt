-- ===== src/ModemController/Urcs.antt =====
-- `poll_urc` of src/modem_controller.cpp: the lines that the modem sends unasked, from the bytes that
-- a poll reads and those that wait.
use x_e310_multi_os.Base.{
  ℕ, zero, suc, ◌-◌, Bool, true, false, not, ◌&&◌, List, [], ◌∷◌, drop, length, is_empty, ltb, ◌==◌,
  if◌then◌else◌, codes, has_prefix, before, after, none, some,
}
use x_e310_multi_os.FixedString.{of_view, append, push_back}
use x_e310_multi_os.ModemController.{ModemController, urc_rx_buffer_max, read_max, opened}
use x_e310_multi_os.ModemController.Port.{Uart, UartError}

abbrev pub urc_line_max : ℕ
urc_line_max = 256

abbrev pub max_urc_lines : ℕ
max_urc_lines = 8

abbrev pub known_prefixes : List (List ℕ)
known_prefixes =
    codes "+CREG:"
    ∷ codes "+CGREG:"
    ∷ codes "+CEREG:"
    ∷ codes "+CGEV:"
    ∷ codes "%STATEV:"
    ∷ codes "%NOTIFYEV:"
    ∷ codes "#PSMURC:"
    ∷ codes "+CME ERROR:"
    ∷ codes "+CMS ERROR:"
    ∷ codes "#CSURV:"
    ∷ codes "SRING:"
    ∷ codes "RING"
    ∷ codes "NO CARRIER"
    ∷ codes "BUSY"
    ∷ codes "NO DIALTONE"
    ∷ codes "$GPGGA,"
    ∷ codes "$GPGSA,"
    ∷ codes "$GPGSV,"
    ∷ codes "$GPRMC,"
    ∷ []

unfoldable pub has_any_prefix : List (List ℕ) → List ℕ → Bool
unfolding has_prefix
has_any_prefix [] line = false
has_any_prefix (p ∷ ps) line = if has_prefix p line then true else has_any_prefix ps line

unfoldable pub strip_cr : List ℕ → List ℕ
strip_cr [] = []
strip_cr (c ∷ []) = if c == 13 then [] else c ∷ []
strip_cr (c ∷ d ∷ s) = c ∷ strip_cr (d ∷ s)

-- The line is kept if a known prefix starts it and there is room.
unfoldable pub keep_line : List ℕ → List (List ℕ) → List (List ℕ)
unfolding has_any_prefix push_back
keep_line line urcs =
    if not (is_empty line) && has_any_prefix known_prefixes line
    then (push_back max_urc_lines urcs line).1
    else urcs

-- The loop over the complete lines: each takes a byte at least, so that the number of bytes is fuel
-- enough.
unfoldable pub poll_lines : ℕ → List ℕ → List (List ℕ) → List (List ℕ) × List ℕ
unfolding before after of_view strip_cr keep_line
poll_lines zero buffer urcs = (urcs, buffer)
poll_lines (suc fuel) buffer urcs = elim (after 10 buffer) [
  | none ↦ (urcs, buffer)
  | some rest ↦
      poll_lines fuel rest (keep_line (of_view urc_line_max (strip_cr (before 10 buffer))) urcs)
]

-- The guard on the buffer's growth.
unfoldable pub cut_buffer : List ℕ → List ℕ
cut_buffer buffer = if ltb 1024 (length buffer) then drop (length buffer - 512) buffer else buffer

module _ {U : Type 0} (uart : Uart U) where
  -- The bytes that a poll reads join those that wait; the lines are taken unless the read failed.
  abbrev pub parse_urcs : List ℕ → ModemController U → List (List ℕ) × ModemController U
  parse_urcs buffer c =
      let (urcs, rest) = poll_lines (length buffer) buffer [] in
      (urcs, record c { urc_rx_buffer = cut_buffer rest })

  unfoldable pub poll_urc : Bool → ℕ → ModemController U → List (List ℕ) × ModemController U
  poll_urc false timeout_ms c = ([], c)
  poll_urc true timeout_ms c = elim (opened uart c.uart) [
    | none ↦ ([], c)
    | some u ↦
        let (err, bytes, u₁) = uart.read read_max timeout_ms u in
        let c₁ = record c { uart = some u₁ } in
        elim err [
          | UartError.ok ↦
              parse_urcs
                (if is_empty bytes
                  then c.urc_rx_buffer
                  else append urc_rx_buffer_max c.urc_rx_buffer bytes)
                c₁
          | UartError.timeout ↦ parse_urcs c.urc_rx_buffer c₁
          | _ ↦ ([], c₁)
        ]
  ]
