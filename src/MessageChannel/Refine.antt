-- ===== src/MessageChannel/Refine.antt =====
-- The ring of posix_message_channel.cpp behaves as the bounded queue of the frames in its window.
use x_e310_multi_os.Base.{
  ℕ, ◌+◌, ◌%◌, ◌≤◌, ◌<◌, ◌≡◌, refl, sym, ap, ◌∙◌, false, List, [], ◌∷◌, ◌++◌, length, ◌==◌,
  if◌then◌else◌, leb, is_empty, Option, none, some, arith, Bool-cases, inl, inr, window,
  window-store, window-front, length-window,
}
use x_e310_multi_os.MessageChannel.{
  empty, timeout, Channel, max_capacity, bytes_at, bad_size, put_frame, get_frame, send, receive,
  new_channel,
}
use x_e310_multi_os.MessageChannel.Fifo
use x_e310_multi_os.MessageChannel.Fifo.{Fifo}

-- The channel holds the frames of `q`, within its bounds.
pub record Holds (capacity : ℕ) (q : Fifo) (ch : Channel) : Type 0 where
  pub frames : window max_capacity ch.buffer ch.head ch.count ≡ q
  pub bound : ch.capacity ≡ capacity
  pub small : capacity ≤ max_capacity
  pub positive : 0 < capacity
  pub within : ch.count ≤ capacity
  pub head_in : ch.head < max_capacity
  pub tail_at : ch.tail ≡ (ch.head + ch.count) % max_capacity

-- A new channel is empty, and its capacity is between one and sixteen.
pub new_channel-Holds : (n : ℕ) → Holds (new_channel n).capacity [] (new_channel n)
unfolding new_channel
new_channel-Holds n = ground arith

pub count_lem : {capacity : ℕ} {q : Fifo} {ch : Channel} → Holds capacity q ch → ch.count ≡ length q
count_lem {q} {ch} h =
    sym (length-window max_capacity ch.buffer ch.head ch.count) ∙ ap length h.frames

pub full_lem :
    {capacity : ℕ} {q : Fifo} {ch : Channel}
    → Holds capacity q ch
    → leb ch.capacity ch.count ≡ leb capacity (length q)
full_lem h = rw (h.bound, count_lem h)

is_empty-length : (q : Fifo) → (length q == 0) ≡ is_empty q
is_empty-length [] = refl
is_empty-length (f ∷ q) = ground arith

pub empty_lem :
    {capacity : ℕ} {q : Fifo} {ch : Channel} → Holds capacity q ch → (ch.count == 0) ≡ is_empty q
empty_lem {q} h = rw (count_lem h) (is_empty-length q)

pub put_frame-Holds :
    {capacity : ℕ} {q : Fifo} {ch : Channel} (f : List ℕ)
    → Holds capacity q ch
    → ch.count < capacity
    → Holds capacity (q ++ (f ∷ [])) (put_frame ch f)
put_frame-Holds {capacity} {q} {ch} f h lt = record {
  frames = rw h.tail_at (
      window-store max_capacity ch.buffer ch.head ch.count f (omega (arith, h.small))
      ∙ ap (λ r. r ++ (f ∷ [])) h.frames);
  bound = h.bound;
  small = h.small;
  positive = h.positive;
  within = omega arith;
  head_in = h.head_in;
  tail_at = omega (arith, h.tail_at);
}

pub get_frame-Holds :
    {capacity : ℕ} (f : List ℕ) (q : Fifo) {ch : Channel}
    → Holds capacity (f ∷ q) ch
    → ((get_frame ch).2 ≡ some f) × Holds capacity q (get_frame ch).1
get_frame-Holds f q {ch} h =
    let (pos, value, rest) =
      window-front max_capacity ch.buffer ch.head ch.count f q h.head_in h.frames in
    (
      ap some value,
      record {
        frames = rest;
        bound = h.bound;
        small = h.small;
        positive = h.positive;
        within = omega arith;
        head_in = omega arith;
        tail_at = omega (arith, h.tail_at);
      },
    )

-- Sending to the channel, waiting or not, has the result, and leaves the frames, of `Fifo.offer`.
pub send_refines :
    (capacity : ℕ) {q later : Fifo} {ch woken : Channel} (bytes : Option (List ℕ)) (n t : ℕ)
    → Holds capacity q ch
    → Holds capacity later woken
    → let (e, ch') = send ch bytes n t woken in
      let (e', q') = Fifo.offer capacity q bytes n t later in (e ≡ e') × Holds capacity q' ch'
unfolding send Fifo.offer
send_refines capacity {q} {later} {ch} {woken} bytes n t h k =
    elim (Bool-cases (bad_size bytes n)) [
      | inl e ↦ rw e (refl, h)
      | inr e ↦
          rw (e, full_lem h, full_lem k)
            (elim (Bool-cases (leb capacity (length q))) [
              | inr f ↦
                  rw f (refl, put_frame-Holds (bytes_at bytes n) h (ground (arith, count_lem h)))
              | inl f ↦ rw f (elim (Bool-cases (t == 0)) [
                | inl z ↦ rw z (refl, h)
                | inr z ↦ rw z (elim (Bool-cases (leb capacity (length later))) [
                  | inl l ↦ rw l (refl, k)
                  | inr l ↦
                      rw l
                        (refl, put_frame-Holds (bytes_at bytes n) k (ground (arith, count_lem k)))
                ])
              ])
            ])
    ]

wait_refines :
    {capacity : ℕ} (later : Fifo) {woken : Channel}
    → Holds capacity later woken
    → let (e, ch', f) = if is_empty later then (timeout, woken, none) else get_frame woken in
      let (e', q', f') = Fifo.front timeout later in (e ≡ e') × (f ≡ f') × Holds capacity q' ch'
wait_refines [] k = (refl, refl, k)
wait_refines (f ∷ q) k = let (v, r) = get_frame-Holds f q k in (refl, v, r)

front_refines :
    {capacity : ℕ} (q : Fifo) {ch : Channel}
    → Holds capacity q ch
    → is_empty q ≡ false
    → let (e, ch', f) = get_frame ch in
      let (e', q', f') = Fifo.front empty q in (e ≡ e') × (f ≡ f') × Holds capacity q' ch'
front_refines [] h ne = cc
front_refines (f ∷ q) h ne = let (v, r) = get_frame-Holds f q h in (refl, v, r)

-- Receiving from the channel, waiting or not, has the result, and leaves the frames, of `Fifo.poll`.
pub receive_refines :
    (capacity : ℕ) {q later : Fifo} {ch woken : Channel} (t : ℕ)
    → Holds capacity q ch
    → Holds capacity later woken
    → let (e, ch', f) = receive ch t woken in
      let (e', q', f') = Fifo.poll q t later in (e ≡ e') × (f ≡ f') × Holds capacity q' ch'
unfolding receive Fifo.poll
receive_refines capacity {q} {later} {ch} {woken} t h k =
    rw (empty_lem h, empty_lem k)
      (elim (Bool-cases (is_empty q)) [
        | inr f ↦ rw f (front_refines q h f)
        | inl f ↦ rw f (elim (Bool-cases (t == 0)) [
          | inl z ↦ rw z (refl, refl, h)
          | inr z ↦ rw z (wait_refines later k)
        ])
      ])
