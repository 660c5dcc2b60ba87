-- ===== src/NetworkLte/Trace/Refine.antt =====
-- The trace ring of src/network_lte.cpp holds the ten latest entries that were not taken.
use x_e310_multi_os.Base.{
  ℕ, ◌+◌, ◌%◌, ◌≤◌, ◌<◌, ◌≡◌, refl, sym, ap, ◌∙◌, List, [], ◌∷◌, ◌++◌, length, ◌==◌, if◌then◌else◌,
  ltb, is_empty, not, store, Option, none, some, arith, Bool-cases, inl, inr, window, window-store,
  window-front, window-mod, length-window, drop,
}
use native.Mathlib.Nat.{mod-mod}
use x_e310_multi_os.NetworkLte.Trace.{
  NetworkTraceEntry, TraceRing, trace_capacity, push_trace, pop_trace, take_entry, new_trace,
}

-- The ring holds the entries of `q`, oldest first.
pub record Holds (q : List NetworkTraceEntry) (t : TraceRing) : Type 0 where
  pub entries : window trace_capacity t.buffer t.head t.count ≡ q
  pub within : t.count ≤ trace_capacity
  pub head_in : t.head < trace_capacity

-- The specification of a push: at most ten entries are kept, the latest.
unfoldable pub keep_latest : List NetworkTraceEntry → NetworkTraceEntry → List NetworkTraceEntry
keep_latest q entry =
    if ltb (length q) trace_capacity then q ++ (entry ∷ []) else drop 1 q ++ (entry ∷ [])

abbrev pub front : List NetworkTraceEntry → List NetworkTraceEntry × Option NetworkTraceEntry
front [] = ([], none)
front (e ∷ q) = (q, some e)

unfoldable pub take_first :
    List NetworkTraceEntry
    → ℕ
    → List NetworkTraceEntry
    → List NetworkTraceEntry × Option NetworkTraceEntry
take_first [] timeout_ms later = if timeout_ms == 0 then ([], none) else front later
take_first (e ∷ q) timeout_ms later = (q, some e)

-- A new ring holds no entry.
pub new_trace-Holds : (buffer : ℕ → NetworkTraceEntry) → Holds [] (new_trace buffer)
new_trace-Holds buffer = record { entries = refl; within = omega arith; head_in = omega arith }

count_lem : {q : List NetworkTraceEntry} {t : TraceRing} → Holds q t → t.count ≡ length q
count_lem {q} {t} h =
    sym (length-window trace_capacity t.buffer t.head t.count) ∙ ap length h.entries

take_entry-Holds :
    (e : NetworkTraceEntry) (q : List NetworkTraceEntry) {t : TraceRing}
    → Holds (e ∷ q) t
    → Holds q (take_entry t).0 × ((take_entry t).1 ≡ some e)
take_entry-Holds e q {t} h =
    let (pos, value, rest) =
      window-front trace_capacity t.buffer t.head t.count e q h.head_in h.entries in
    (record { entries = rest; within = omega arith; head_in = omega arith }, ap some value)

overwrite_window :
    (f : ℕ → NetworkTraceEntry) (h n : ℕ) (q : List NetworkTraceEntry) (e : NetworkTraceEntry)
    → h < trace_capacity
    → n ≡ trace_capacity
    → window trace_capacity f h n ≡ q
    → window trace_capacity (store f h e) ((h + 1) % trace_capacity) n ≡ drop 1 q ++ (e ∷ [])
overwrite_window f h n q e lt full w = rw full (
    window-mod 10 (store f h e) ((h + 1) % 10) (h + 1) 10 (mod-mod (h + 1) 10)
    ∙ ap (λ i. window 10 (store f i e) (h + 1) 10) last
    ∙ window-store 10 f (h + 1) 9 e (omega arith)
    ∙ ap (λ r. drop 1 r ++ (e ∷ [])) (rw full at w))
  where
    last : h ≡ (h + 1 + 9) % 10
    last = omega arith

-- Pushing an entry on a full ring drops the oldest one, and on any other adds to it.
pub push_trace_refines :
    {q : List NetworkTraceEntry} {t : TraceRing} (entry : NetworkTraceEntry)
    → Holds q t
    → Holds (keep_latest q entry) (push_trace t entry)
unfolding push_trace keep_latest
push_trace_refines {q} {t} entry h =
    rw (← count_lem h) (elim (Bool-cases (ltb t.count trace_capacity)) [
      | inl e ↦ rw e (record {
        entries =
            window-store trace_capacity t.buffer t.head t.count entry (ground arith)
            ∙ ap (λ r. r ++ (entry ∷ [])) h.entries;
        within = ground arith;
        head_in = h.head_in;
      })
      | inr e ↦ rw e (record {
        entries =
            overwrite_window t.buffer t.head t.count q entry h.head_in (ground arith) h.entries;
        within = h.within;
        head_in = omega arith;
      })
    ])

wait_refines :
    (later : List NetworkTraceEntry) {woken : TraceRing}
    → Holds later woken
    → let (t', e) = if not (is_empty later) then take_entry woken else (woken, none) in
      let (q', e') = front later in Holds q' t' × (e ≡ e')
wait_refines [] k = (k, refl)
wait_refines (e ∷ q) k = take_entry-Holds e q k

nonempty : (q : List NetworkTraceEntry) → ltb 0 (length q) ≡ not (is_empty q)
nonempty [] = refl
nonempty (e ∷ q) = ground arith

nonempty_lem :
    {q : List NetworkTraceEntry} {t : TraceRing} → Holds q t → ltb 0 t.count ≡ not (is_empty q)
nonempty_lem {q} h = rw (count_lem h) (nonempty q)

-- Popping takes the oldest entry there is, at once or after the wait, and else leaves the ring.
pub pop_trace_refines :
    (q later : List NetworkTraceEntry) {t woken : TraceRing} (timeout_ms : ℕ)
    → Holds q t
    → Holds later woken
    → let (t', e) = pop_trace t timeout_ms woken in
      let (q', e') = take_first q timeout_ms later in Holds q' t' × (e ≡ e')
unfolding pop_trace take_first
pop_trace_refines [] later n h k =
    rw (nonempty_lem h, nonempty_lem k)
      (elim (Bool-cases (n == 0)) [ inl z ↦ rw z (h, refl) | inr z ↦ rw z (wait_refines later k) ])
pop_trace_refines (e ∷ q) later n h k = rw (nonempty_lem h) (elim (Bool-cases (n == 0)) [
  | inl z ↦ rw z (take_entry-Holds e q h)
  | inr z ↦ rw z (take_entry-Holds e q h)
])
