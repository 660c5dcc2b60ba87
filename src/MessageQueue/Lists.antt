-- ===== src/MessageQueue/Lists.antt =====
-- Lemmas on the list of messages: what pushing and removing do to the messages of a connection and
-- to the list of ids that posix_message_queue.cpp keeps beside its deques.
use x_e310_multi_os.Base.{
  ℕ, suc, ◌≤◌, ◌≡◌, refl, ap, ◌≢◌, List, [], ◌∷◌, ◌++◌, length, ◌==◌, arith, Bool-cases, inl, inr,
}
use x_e310_multi_os.MessageQueue.{QueueMessage, max_connections, remove_order_entry}
use x_e310_multi_os.MessageQueue.Fifo.{Fifo, of_conn, cids, remove_first}

abbrev pub ValidIds : Fifo → Type 0
ValidIds [] = Unit {0}
ValidIds (m ∷ q) = (1 ≤ m.cid) × (m.cid ≤ max_connections) × ValidIds q

pub length-cids : (q : Fifo) → length (cids q) ≡ length q
unfolding cids
length-cids [] = refl
length-cids (m ∷ q) = ap suc (length-cids q)

pub length-of_conn : (c : ℕ) (q : Fifo) → length (of_conn c q) ≤ length q
unfolding of_conn
length-of_conn c [] = omega arith
length-of_conn c (m ∷ q) = ground (arith, length-of_conn c q)

pub cids-append : (q : Fifo) (m : QueueMessage) → cids (q ++ (m ∷ [])) ≡ cids q ++ (m.cid ∷ [])
unfolding cids
cids-append [] m = refl
cids-append (n ∷ q) m = ap (λ r. n.cid ∷ r) (cids-append q m)

pub of_conn-append_self :
    (c : ℕ) (q : Fifo) (m : QueueMessage)
    → m.cid ≡ c
    → of_conn c (q ++ (m ∷ [])) ≡ of_conn c q ++ (m ∷ [])
unfolding of_conn
of_conn-append_self c [] m e = ground arith
of_conn-append_self c (n ∷ q) m e = ground (arith, of_conn-append_self c q m e)

pub of_conn-append_ne :
    (c : ℕ) (q : Fifo) (m : QueueMessage) → m.cid ≢ c → of_conn c (q ++ (m ∷ [])) ≡ of_conn c q
unfolding of_conn
of_conn-append_ne c [] m e = ground arith
of_conn-append_ne c (n ∷ q) m e = ground (arith, of_conn-append_ne c q m e)

pub ValidIds-append :
    (q : Fifo) (m : QueueMessage)
    → 1 ≤ m.cid
    → m.cid ≤ max_connections
    → ValidIds q
    → ValidIds (q ++ (m ∷ []))
ValidIds-append [] m a b v = (a, b, tt)
ValidIds-append (n ∷ q) m a b v = (v.0, v.1, ValidIds-append q m a b v.2)

pub cids-remove_first : (c : ℕ) (q : Fifo) → remove_order_entry (cids q) c ≡ cids (remove_first c q)
unfolding cids remove_first remove_order_entry
cids-remove_first c [] = refl
cids-remove_first c (m ∷ q) = ground (arith, cids-remove_first c q)

pub of_conn-remove_first_self :
    (c : ℕ) (q : Fifo) (m : QueueMessage) (r : List QueueMessage)
    → of_conn c q ≡ m ∷ r
    → of_conn c (remove_first c q) ≡ r
unfolding of_conn remove_first
of_conn-remove_first_self c [] m r e = ground arith
of_conn-remove_first_self c (n ∷ q) m r e = ground (arith, of_conn-remove_first_self c q m r)

pub of_conn-remove_first_ne :
    (c d : ℕ) (q : Fifo) → c ≢ d → of_conn d (remove_first c q) ≡ of_conn d q
unfolding of_conn remove_first
of_conn-remove_first_ne c d [] e = refl
of_conn-remove_first_ne c d (n ∷ q) e = ground (arith, of_conn-remove_first_ne c d q e)

pub ValidIds-remove_first : (c : ℕ) (q : Fifo) → ValidIds q → ValidIds (remove_first c q)
unfolding remove_first
ValidIds-remove_first c [] v = tt
ValidIds-remove_first c (n ∷ q) v = elim (Bool-cases (n.cid == c)) [
  | inl e ↦ rw e v.2
  | inr e ↦ rw e (v.0, v.1, ValidIds-remove_first c q v.2)
]

pub length-remove_first : (c : ℕ) (q : Fifo) → length (remove_first c q) ≤ length q
unfolding remove_first
length-remove_first c [] = omega arith
length-remove_first c (n ∷ q) = ground (arith, length-remove_first c q)
