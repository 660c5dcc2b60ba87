-- ===== src/ModemController/Poll.antt =====
-- `poll_urc` of src/modem_controller.cpp: which lines it gives out and what it leaves in the buffer.
pub mod Lines
use x_e310_multi_os.Base.{
  ℕ, zero, suc, ◌+◌, ◌≤◌, ◌≡◌, refl, sym, ap, ◌∙◌, Bool, true, false, ◌&&◌, not, List, [], ◌∷◌,
  ◌++◌, take, take-all, length, length-append, append_assoc, append-nil, is_empty, ◌==◌, leb,
  if◌then◌else◌, arith, before, after, none, some, Option-cases, Bool-cases, inl, inr,
}
use x_e310_multi_os.FixedString.{
  of_view, append, append-fits, append-full, push_back, push_back-bounded,
}
use x_e310_multi_os.ModemController.Port.{Uart, UartError}
use x_e310_multi_os.ModemController.{ModemController, opened, urc_rx_buffer_max, read_max}
use x_e310_multi_os.ModemController.Urcs.{
  known_prefixes, has_any_prefix, strip_cr, keep_line, poll_lines, poll_urc, cut_buffer, parse_urcs,
  max_urc_lines, urc_line_max,
}
pub use Lines.{no_lf, all_no_lf, wire, wanted}
use Lines.{after-none, poll_lines-none, poll_lines-wire}

length-tail : (lines : List (List ℕ)) (tail : List ℕ) → length tail ≤ length (wire lines tail)
length-tail [] tail = omega arith
length-tail (line ∷ lines) tail =
    omega (arith, length-append line (10 ∷ wire lines tail), length-tail lines tail)

cut_buffer-fits : (buffer : List ℕ) → length buffer ≤ 1024 → cut_buffer buffer ≡ buffer
unfolding cut_buffer
cut_buffer-fits buffer h = ground arith

module _ {U : Type 0} (uart : Uart U) where
  parse_urcs-wire :
      (c : ModemController U) (lines : List (List ℕ)) (tail : List ℕ)
      → all_no_lf lines ≡ true
      → no_lf tail ≡ true
      → length tail ≤ 1024
      → parse_urcs uart (wire lines tail) c
        ≡ (take max_urc_lines (wanted lines), record c { urc_rx_buffer = tail })
  parse_urcs-wire c lines tail h k le =
      let all =
        poll_lines-wire (length (wire lines tail)) lines tail [] h k (omega arith) (omega arith) in
      ap (λ r. (r.0, record c { urc_rx_buffer = cut_buffer r.1 })) all
      ∙ ap (λ b. (take max_urc_lines (wanted lines), record c { urc_rx_buffer = b }))
          (cut_buffer-fits tail le)

  joined-fits :
      (buffer bytes : List ℕ)
      → is_empty bytes ≡ false
      → length buffer + length bytes ≤ urc_rx_buffer_max
      → (if is_empty bytes then buffer else append urc_rx_buffer_max buffer bytes) ≡ buffer ++ bytes
  joined-fits buffer bytes e fits = rw e (append-fits urc_rx_buffer_max buffer bytes fits)

  -- However the lines were cut into reads: when the bytes that wait and those that a poll reads fit
  -- the buffer and are together some lines and the start of another, the poll gives out the lines
  -- that a known prefix starts, in their order, the first eight of them, each at most 256 bytes and
  -- without its carriage return, and the start of the next line is what waits.
  pub poll_urc-lines :
      (ms : ℕ) (c : ModemController U) (u u' : U) (bytes : List ℕ) (lines : List (List ℕ))
      (tail : List ℕ)
      → opened uart c.uart ≡ some u
      → uart.read read_max ms u ≡ (UartError.ok, bytes, u')
      → is_empty bytes ≡ false
      → c.urc_rx_buffer ++ bytes ≡ wire lines tail
      → length c.urc_rx_buffer + length bytes ≤ urc_rx_buffer_max
      → all_no_lf lines ≡ true
      → no_lf tail ≡ true
      → poll_urc uart true ms c
        ≡ (take max_urc_lines (wanted lines), record c { uart = some u'; urc_rx_buffer = tail })
  unfolding poll_urc
  poll_urc-lines ms c u u' bytes lines tail up read some_bytes split fits h k =
      let c₁ = record c { uart = some u' } in
      rw (poll_urc, up, ap (λ r. r.0) read, ap (λ r. r.1) read, ap (λ r. r.2) read)
        (ap (λ b. parse_urcs uart b c₁) (joined-fits c.urc_rx_buffer bytes some_bytes fits ∙ split)
          ∙ parse_urcs-wire c₁ lines tail h k (
              omega (
                arith,
                length-append c.urc_rx_buffer bytes,
                length-tail lines tail,
                ap length split,
              )))

  parse_urcs-full :
      (c : ModemController U) (buffer : List ℕ)
      → length buffer ≡ urc_rx_buffer_max
      → no_lf buffer ≡ true
      → parse_urcs uart buffer c ≡ ([], record c { urc_rx_buffer = buffer })
  parse_urcs-full c buffer full h =
      rw
        (
          poll_lines-none (length buffer) buffer [] (after-none buffer h),
          cut_buffer-fits buffer (omega arith),
        )
        refl

  -- Nothing fits a full buffer.
  joined-full :
      (buffer bytes : List ℕ)
      → length buffer ≡ urc_rx_buffer_max
      → (if is_empty bytes then buffer else append urc_rx_buffer_max buffer bytes) ≡ buffer
  unfolding append
  joined-full buffer [] full = refl
  joined-full buffer (b ∷ bytes) full =
      rw (append-full urc_rx_buffer_max buffer (b ∷ bytes) (omega arith)) refl

  read-stuck :
      (err : UartError) (bytes : List ℕ) (c : ModemController U)
      → length c.urc_rx_buffer ≡ urc_rx_buffer_max
      → no_lf c.urc_rx_buffer ≡ true
      → (elim err as (λ e. List (List ℕ) × ModemController U) [
        | UartError.ok ↦
            parse_urcs uart
              (if is_empty bytes
                then c.urc_rx_buffer
                else append urc_rx_buffer_max c.urc_rx_buffer bytes)
              c
        | UartError.timeout ↦ parse_urcs uart c.urc_rx_buffer c
        | _ ↦ ([], c)
      ])
        ≡ ([], c)
  read-stuck UartError.ok bytes c full h =
      rw (joined-full c.urc_rx_buffer bytes full) (parse_urcs-full c c.urc_rx_buffer full h)
  read-stuck UartError.timeout bytes c full h = parse_urcs-full c c.urc_rx_buffer full h
  read-stuck _ bytes c full h = refl

  -- A buffer that is full and has no newline stays as it is, and nothing is given out, whatever the
  -- line delivers.
  pub poll_urc-stuck :
      (ms : ℕ) (c : ModemController U)
      → length c.urc_rx_buffer ≡ urc_rx_buffer_max
      → no_lf c.urc_rx_buffer ≡ true
      → ((poll_urc uart true ms c).0 ≡ [])
        × ((poll_urc uart true ms c).1.urc_rx_buffer ≡ c.urc_rx_buffer)
  unfolding poll_urc
  poll_urc-stuck ms c full h = elim (Option-cases (opened uart c.uart)) [
    | inl down ↦ rw (poll_urc, down) (refl, refl)
    | inr (u, up) ↦
        rw
          (
            poll_urc,
            up,
            read-stuck (uart.read read_max ms u).0 (uart.read read_max ms u).1
                (record c { uart = some ((uart.read read_max ms u).2) }) full h,
          )
          (refl, refl)
  ]
