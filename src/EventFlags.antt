-- ===== src/EventFlags.antt =====
-- `PosixEventFlags` (src/hal/posix_event_flags.cpp): a word of 32 event bits that threads set and wait
-- for. The word is the function from a bit's position to the bit. The mutex makes each call one step;
-- a wait on the condition hands in the word as the other threads left it, `woken`.
pub mod Laws
use x_e310_multi_os.Base.{ℕ, zero, suc, Bool, true, false, not, ◌&&◌, ◌||◌, ◌==◌, if◌then◌else◌}

abbrev pub Mask : Type 0
Mask = ℕ → Bool

abbrev pub no_flags : Mask
no_flags i = false

-- `1U << n`.
abbrev pub flag : ℕ → Mask
flag n i = i == n

-- Whether one of the first n bits is set.
unfoldable pub any_bit : ℕ → Mask → Bool
any_bit zero m = false
any_bit (suc n) m = m n || any_bit n m

-- `(flags_ & flags) != 0`.
unfoldable pub matches : Mask → Mask → Bool
unfolding any_bit
matches word flags = any_bit 32 (λ i. word i && flags i)

unfoldable pub set : Mask → Mask → Mask
set flags word i = word i || flags i

unfoldable pub clear : Mask → Mask → Mask
clear flags word i = word i && not (flags i)

-- The end of a wait that found a bit: the bits found, and the word that is left.
unfoldable pub take_flags : Mask → Bool → Mask → Mask × Mask
take_flags flags clears word =
    let matched : Mask = λ i. word i && flags i in
    (matched, if clears then (λ i. word i && not (matched i)) else word)

unfoldable pub wait : Mask → Bool → ℕ → Mask → Mask → Mask × Mask
unfolding matches take_flags
wait flags clears timeout_ms word woken =
    if matches word flags
    then take_flags flags clears word
    else if timeout_ms == 0
    then (no_flags, word)
    else if matches woken flags
    then take_flags flags clears woken
    else (no_flags, woken)
