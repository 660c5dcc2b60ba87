-- ===== src/Tests/Hal.antt =====
-- The queues, the channels and the strings of the platform layer at concrete inputs.
use x_e310_multi_os.Base.{
  ℕ, none, ◌^◌, ◌-◌, ◌≡◌, [], codes, some, List, ◌∷◌, length, ◌≤◌, refl, arith,
}
use x_e310_multi_os.FixedString.Ops.{
  StringOp, append_view, append_byte, erase_at, run_strings, run_strings-bounded,
}
use x_e310_multi_os.MessageQueue.{no_messages, push_to, pop_from, pop_next_from, Side}
use x_e310_multi_os.MessageQueue.Fifo
use x_e310_multi_os.MessageQueue.Refine.{
  Holds, push_refines, pop_refines, pop_next_refines, no_messages-Holds,
}
use x_e310_multi_os.MessageChannel.{new_channel, send, receive, Channel}
use x_e310_multi_os.MessageChannel.Fifo as Frames
use x_e310_multi_os.MessageChannel.Refine as ChannelRefine
use x_e310_multi_os.MessageChannel.Refine.{new_channel-Holds, send_refines, receive_refines}

abbrev one_sent : Side
one_sent = (push_to 5 no_messages 2 (codes "first")).1

abbrev one_waits : Fifo.Fifo
one_waits = (Fifo.put 5 [] 2 (codes "first")).1

one_sent-Holds : Holds 5 one_waits one_sent
one_sent-Holds = (push_refines 5 2 (codes "first") (no_messages-Holds 5)).1

push_refines_example :
    let (e, s') = push_to 5 one_sent 4 (codes "second") in
    let (e', q') = Fifo.put 5 one_waits 4 (codes "second") in (e ≡ e') × Holds 5 q' s'
push_refines_example = push_refines 5 4 (codes "second") one_sent-Holds

pop_refines_example :
    let (e, s', m) = pop_from one_sent 2 0 one_sent in
    let (e', q', m') = Fifo.take_conn 2 one_waits 0 one_waits in (e ≡ e') × (m ≡ m') × Holds 5 q' s'
pop_refines_example = pop_refines 5 2 0 one_sent-Holds one_sent-Holds

pop_next_refines_example :
    let (e, s', m) = pop_next_from one_sent 0 one_sent in
    let (e', q', m') = Fifo.take_oldest one_waits 0 one_waits in (e ≡ e') × (m ≡ m') × Holds 5 q' s'
pop_next_refines_example = pop_next_refines 5 0 one_sent-Holds one_sent-Holds

abbrev idle_channel : Channel
idle_channel = new_channel 4

send_refines_example :
    let (e, ch') = send idle_channel (some (codes "ping")) 4 0 idle_channel in
    let (e', q') = Frames.offer idle_channel.capacity [] (some (codes "ping")) 4 0 [] in
    (e ≡ e') × ChannelRefine.Holds idle_channel.capacity q' ch'
send_refines_example =
    send_refines idle_channel.capacity (some (codes "ping")) 4 0 (new_channel-Holds 4)
      (new_channel-Holds 4)

abbrev used_channel : Channel
used_channel = (send idle_channel (some (codes "ping")) 4 0 idle_channel).1

abbrev used_frames : Frames.Fifo
used_frames = (Frames.offer idle_channel.capacity [] (some (codes "ping")) 4 0 []).1

used_channel-Holds : ChannelRefine.Holds idle_channel.capacity used_frames used_channel
used_channel-Holds =
    (send_refines idle_channel.capacity (some (codes "ping")) 4 0 (new_channel-Holds 4)
      (new_channel-Holds 4)).1

receive_refines_example :
    let (e, ch', f) = receive used_channel 0 used_channel in
    let (e', q', f') = Frames.poll used_frames 0 used_frames in
    (e ≡ e') × (f ≡ f') × ChannelRefine.Holds idle_channel.capacity q' ch'
receive_refines_example =
    receive_refines idle_channel.capacity 0 used_channel-Holds used_channel-Holds

-- More is appended than there is room for, and a byte is taken away from the front.
abbrev some_ops : List StringOp
some_ops = append_view (codes "world") ∷ append_byte 33 ∷ erase_at 0 1 ∷ []

run_strings_run : run_strings 8 some_ops (codes "hello") ≡ some (codes "ellowor")
unfolding run_strings
run_strings_run = refl

run_strings-bounded_example :
    (s : List ℕ) × (run_strings 8 some_ops (codes "hello") ≡ some s) × (length s ≤ 8)
run_strings-bounded_example = run_strings-bounded 8 some_ops (codes "hello") refl (omega arith)

-- A count that wraps round.
erase_wraps : run_strings 16 (erase_at 5 (2 ^ 64 - 3) ∷ []) (codes "helloworld") ≡ none
unfolding run_strings
erase_wraps = refl
