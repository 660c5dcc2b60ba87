-- ===== src/EventFlags/Laws.antt =====
-- No event is lost in src/hal/posix_event_flags.cpp.
use x_e310_multi_os.Base.{
  ap, ==_iff, ℕ, zero, suc, ◌<◌, ◌≡◌, refl, Bool, true, false, not, ◌&&◌, ◌||◌, ◌==◌, arith,
  Bool-cases, inl, inr,
}
use x_e310_multi_os.EventFlags.{Mask, any_bit, matches, set, take_flags, wait}

any_bit-some : (n i : ℕ) (m : Mask) → i < n → m i ≡ true → any_bit n m ≡ true
unfolding any_bit
any_bit-some zero i m lt h = absurd (omega arith)
any_bit-some (suc n) i m lt h = elim (Bool-cases (i == n)) [
  | inl here ↦ let same = ap m ((==_iff i n).0 here) in ground arith
  | inr below ↦ ground (arith, any_bit-some n i m)
]

-- Clearing the bits found is clearing the bits asked for.
cleared : (w a : Bool) → (w && not (w && a)) ≡ (w && not a)
cleared w a = ground arith

kept : (w : Bool) → w ≡ (w && true)
kept true = refl
kept false = refl

found-some :
    (posted asked word : Mask) (i : ℕ)
    → i < 32
    → posted i ≡ true
    → asked i ≡ true
    → any_bit 32 (λ j. (word j || posted j) && asked j) ≡ true
found-some posted asked word i lt p a =
    any_bit-some 32 i (λ j. (word j || posted j) && asked j) lt (ground arith)

-- A bit that was set is there for the next wait that asks for it: the wait returns at once, with this
-- bit and the others that are set and asked for; clearing takes away these and no other.
pub set-wait :
    (posted asked : Mask) (clears : Bool) (timeout_ms : ℕ) (word woken : Mask) (i : ℕ)
    → i < 32
    → posted i ≡ true
    → asked i ≡ true
    → let after = wait asked clears timeout_ms (set posted word) woken in
      (after.0 i ≡ true)
      × ((j : ℕ) → after.0 j ≡ ((word j || posted j) && asked j))
      × ((j : ℕ) → after.1 j ≡ ((word j || posted j) && not (clears && asked j)))
unfolding wait set matches take_flags
set-wait posted asked true timeout_ms word woken i lt p a =
    rw (found-some posted asked word i lt p a)
      (ground arith, λ j. refl, λ j. cleared (word j || posted j) (asked j))
set-wait posted asked false timeout_ms word woken i lt p a =
    rw (found-some posted asked word i lt p a)
      (ground arith, λ j. refl, λ j. kept (word j || posted j))
