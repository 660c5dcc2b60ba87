-- ===== src/MessageQueue/Refine.antt =====
-- A side of the queue of posix_message_queue.cpp holds one list of messages: its operations are
-- those of `Fifo`.
use x_e310_multi_os.Base.{
  ℕ, ◌+◌, ◌-◌, ◌≤◌, ◌<◌, ◌≡◌, refl, ◌∙◌, false, ◌||◌, List, [], ◌∷◌, ◌++◌, length, length-append,
  ◌==◌, if◌then◌else◌, leb, is_empty, store, none, arith, Bool-cases, ==_refl, inl, inr,
}
use x_e310_multi_os.MessageQueue.{
  QueueMessage, QueueError, empty, timeout, Side, is_invalid_id, max_connections, new_message,
  push_to, pop_from, take_front, take_next, pop_next_from, remove_order_entry, no_messages,
}
use x_e310_multi_os.MessageQueue.Fifo
use x_e310_multi_os.MessageQueue.Fifo.{Fifo, of_conn, cids, remove_first}
use x_e310_multi_os.MessageQueue.Lists.{
  length-cids, length-of_conn, cids-append, of_conn-append_self, of_conn-append_ne, ValidIds-append,
  cids-remove_first, of_conn-remove_first_self, of_conn-remove_first_ne, ValidIds-remove_first,
  length-remove_first, ValidIds,
}

-- The side holds the messages of `q`: each deque those of its connection, and `order` their ids.
pub record Holds (capacity : ℕ) (q : Fifo) (s : Side) : Type 0 where
  pub order : s.order ≡ cids q
  pub deques : (i : ℕ) → s.queues i ≡ of_conn (i + 1) q
  pub valid : ValidIds q
  pub bounded : length q ≤ capacity

valid_id : (c : ℕ) → is_invalid_id c ≡ false → (1 ≤ c) × (c ≤ max_connections)
unfolding is_invalid_id
valid_id c e = ground arith

module _ (capacity : ℕ) where
  deque_of :
      {q : Fifo} {s : Side} (c : ℕ) → Holds capacity q s → 1 ≤ c → s.queues (c - 1) ≡ of_conn c q
  deque_of c h lt = ground (arith, h.deques (c - 1))

  -- One test of the total length decides whether a push is refused: a deque is never longer.
  full_iff :
      {q : Fifo} {s : Side} (c : ℕ)
      → Holds capacity q s
      → 1 ≤ c
      → (leb capacity (length (s.queues (c - 1))) || leb capacity (length s.order))
        ≡ leb capacity (length q)
  full_iff {q} {s} c h lt =
      rw (h.order, deque_of c h lt, length-cids q) (ground (arith, length-of_conn c q))

  push-Holds :
      {q : Fifo} {s : Side} (c : ℕ) (m : QueueMessage)
      → Holds capacity q s
      → length q < capacity
      → m.cid ≡ c
      → (1 ≤ c) × (c ≤ max_connections)
      → Holds capacity (q ++ (m ∷ [])) (record {
        queues = store s.queues (c - 1) (s.queues (c - 1) ++ (m ∷ []));
        order = s.order ++ (c ∷ []);
      })
  push-Holds {q} {s} c m h lt e b = record {
    order = rw (h.order, cids-append q m, e);
    deques = λ j. ground (
      arith,
      deque_of c h b.0,
      h.deques j,
      of_conn-append_self (j + 1) q m,
      of_conn-append_ne (j + 1) q m,
    );
    valid = ValidIds-append q m (omega arith) (omega arith) h.valid;
    bounded = omega (arith, length-append q (m ∷ []));
  }

  pop-Holds :
      {q : Fifo} {s : Side} (c : ℕ) (m : QueueMessage) (r : List QueueMessage)
      → Holds capacity q s
      → 1 ≤ c
      → s.queues (c - 1) ≡ m ∷ r
      → Holds capacity
          (remove_first c q)
          (record { queues = store s.queues (c - 1) r; order = remove_order_entry s.order c })
  pop-Holds {q} {s} c m r h lt e = record {
    order = rw h.order (cids-remove_first c q);
    deques = λ j. ground (
      arith,
      deque_of c h lt,
      h.deques j,
      of_conn-remove_first_self (j + 1) q m r,
      of_conn-remove_first_ne c (j + 1) q,
    );
    valid = ValidIds-remove_first c q h.valid;
    bounded = omega (arith, length-remove_first c q, h.bounded);
  }

  -- Pushing to a side has the result, and leaves the messages, of `Fifo.put`.
  pub push_refines :
      {q : Fifo} {s : Side} (conn_id : ℕ) (bytes : List ℕ)
      → Holds capacity q s
      → let (e, s') = push_to capacity s conn_id bytes in
        let (e', q') = Fifo.put capacity q conn_id bytes in (e ≡ e') × Holds capacity q' s'
  unfolding push_to Fifo.put
  push_refines {q} {s} c bytes h = elim (Bool-cases (is_invalid_id c)) [
    | inl e ↦ rw e (refl, h)
    | inr e ↦
        rw (e, full_iff c h (valid_id c e).0)
          (elim (Bool-cases (leb capacity (length q))) [
            | inl f ↦ rw f (refl, h)
            | inr f ↦
                rw f (refl, push-Holds c (new_message c bytes) h (ground arith) refl (valid_id c e))
          ])
  ]

  take_front_refines :
      {q : Fifo} {s : Side} (c : ℕ) (x : QueueError) (ms : List QueueMessage)
      → Holds capacity q s
      → 1 ≤ c
      → of_conn c q ≡ ms
      → is_empty ms ≡ false
      → let (e, s', m) = take_front s c ms in
        let (e', q', m') = Fifo.taken c q x ms in (e ≡ e') × (m ≡ m') × Holds capacity q' s'
  take_front_refines c x [] h lt e ne = cc
  take_front_refines c x (m ∷ r) h lt e ne =
      (refl, refl, pop-Holds c m r h lt (deque_of c h lt ∙ e))

  -- What a client finds when the wait on the condition variable returns.
  wait_refines :
      {later : Fifo} {woken : Side} (c : ℕ) (ms : List QueueMessage)
      → Holds capacity later woken
      → 1 ≤ c
      → of_conn c later ≡ ms
      → let (e, s', m) = if is_empty ms then (timeout, woken, none) else take_front woken c ms in
        let (e', q', m') = Fifo.taken c later timeout ms in
        (e ≡ e') × (m ≡ m') × Holds capacity q' s'
  wait_refines c [] k lt e = (refl, refl, k)
  wait_refines c (m ∷ r) k lt e = take_front_refines c timeout (m ∷ r) k lt e refl

  -- Popping from a side, waiting or not, has the result of taking the oldest message of the
  -- connection from the list, and leaves the others.
  pub pop_refines :
      {q later : Fifo} {s woken : Side} (conn_id timeout_ms : ℕ)
      → Holds capacity q s
      → Holds capacity later woken
      → let (e, s', m) = pop_from s conn_id timeout_ms woken in
        let (e', q', m') = Fifo.take_conn conn_id q timeout_ms later in
        (e ≡ e') × (m ≡ m') × Holds capacity q' s'
  unfolding pop_from Fifo.take_conn
  pop_refines {q} {later} {s} {woken} c t h k = elim (Bool-cases (is_invalid_id c)) [
    | inl e ↦ rw e (refl, refl, h)
    | inr e ↦
        let lt = (valid_id c e).0 in
        rw (e, deque_of c h lt, deque_of c k lt)
          (elim (Bool-cases (is_empty (of_conn c q))) [
            | inr f ↦ rw f (take_front_refines c empty (of_conn c q) h lt refl f)
            | inl f ↦ rw f (elim (Bool-cases (t == 0)) [
              | inl z ↦ rw z (refl, refl, h)
              | inr z ↦ rw z (wait_refines c (of_conn c later) k lt refl)
            ])
          ])
  ]

  of_conn_front : (m : QueueMessage) (q : Fifo) → of_conn m.cid (m ∷ q) ≡ m ∷ of_conn m.cid q
  unfolding of_conn
  of_conn_front m q = rw (==_refl m.cid)

  remove_first_front : (m : QueueMessage) (q : Fifo) → remove_first m.cid (m ∷ q) ≡ q
  unfolding remove_first
  remove_first_front m q = rw (==_refl m.cid)

  remove_order_front : (c : ℕ) (l : List ℕ) → remove_order_entry (c ∷ l) c ≡ l
  unfolding remove_order_entry
  remove_order_front c l = rw (==_refl c)

  take_next_refines :
      (q : Fifo) {s : Side} (x : QueueError)
      → Holds capacity q s
      → is_empty q ≡ false
      → let (e, s', m) = take_next s (cids q) in
        let (e', q', m') = Fifo.taken_oldest x q in (e ≡ e') × (m ≡ m') × Holds capacity q' s'
  unfolding cids
  take_next_refines [] x h ne = cc
  take_next_refines (m ∷ q) {s} x h ne = rw (deque_of m.cid h h.valid.0 ∙ of_conn_front m q) (
    refl,
    refl,
    rw (remove_first_front m q, h.order, remove_order_front m.cid (cids q)) at popped,
  )
    where
      popped : Holds capacity (remove_first m.cid (m ∷ q)) (record {
        queues = store s.queues (m.cid - 1) (of_conn m.cid q);
        order = remove_order_entry s.order m.cid;
      })
      popped =
          pop-Holds m.cid m (of_conn m.cid q) h h.valid.0
            (deque_of m.cid h h.valid.0 ∙ of_conn_front m q)

  is_empty-cids : (q : Fifo) → is_empty (cids q) ≡ is_empty q
  unfolding cids
  is_empty-cids [] = refl
  is_empty-cids (m ∷ q) = refl

  wait_next_refines :
      (later : Fifo) {woken : Side}
      → Holds capacity later woken
      → let (e, s', m) =
          if is_empty later then (timeout, woken, none) else take_next woken (cids later) in
        let (e', q', m') = Fifo.taken_oldest timeout later in
        (e ≡ e') × (m ≡ m') × Holds capacity q' s'
  wait_next_refines [] k = (refl, refl, k)
  wait_next_refines (m ∷ q) k = take_next_refines (m ∷ q) timeout k refl

  -- Popping the next message of any connection takes the oldest of all: the id in front of `order`
  -- names a deque that is not empty.
  pub pop_next_refines :
      {q later : Fifo} {s woken : Side} (timeout_ms : ℕ)
      → Holds capacity q s
      → Holds capacity later woken
      → let (e, s', m) = pop_next_from s timeout_ms woken in
        let (e', q', m') = Fifo.take_oldest q timeout_ms later in
        (e ≡ e') × (m ≡ m') × Holds capacity q' s'
  unfolding pop_next_from Fifo.take_oldest
  pop_next_refines {q} {later} {s} {woken} t h k =
      simp (h.order, k.order, is_empty-cids)
        (elim (Bool-cases (is_empty q)) [
          | inr f ↦ rw f (take_next_refines q empty h f)
          | inl f ↦ rw f (elim (Bool-cases (t == 0)) [
            | inl z ↦ rw z (refl, refl, h)
            | inr z ↦ rw z (wait_next_refines later k)
          ])
        ])

  -- A new side holds no messages.
  pub no_messages-Holds : Holds capacity [] no_messages
  unfolding cids of_conn
  no_messages-Holds = record { order = refl; deques = λ i. refl; valid = tt; bounded = omega arith }
