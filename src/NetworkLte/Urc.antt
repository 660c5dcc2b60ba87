-- ===== src/NetworkLte/Urc.antt =====
-- `handle_urc` of src/network_lte.cpp: what a line that the modem sends unasked does to the state
-- machine. The `%STATEV:` lines are only logged, and the loop over `NO CARRIER` has no effect but on
-- a local variable.
use x_e310_multi_os.Base.{
  ℕ, zero, suc, ◌-◌, ◌%◌, ℤ, pos, negsuc, Bool, true, false, ◌&&◌, ◌||◌, List, [], ◌∷◌, leb, ◌==◌,
  if◌then◌else◌, is_empty, drop, codes, has_prefix, before, after, skip_spaces, is_digit,
  digits_from, atoi, Option, none, some,
}
use x_e310_multi_os.NetworkLte.Types.{
  NetworkLteEvent, query_pdp_context, context_closed, context_rejected, psm_enter, data_available,
  gps_available,
}
use x_e310_multi_os.NetworkLte.State.{NetworkLte}
use x_e310_multi_os.NetworkLte.Events.{on_event, call_action}

abbrev pub is_blank : ℕ → Bool
is_blank c = c == 32 || c == 9 || c == 13

unfoldable pub trim_left : List ℕ → List ℕ
trim_left [] = []
trim_left (c ∷ s) = if is_blank c then trim_left s else c ∷ s

unfoldable pub trim_right : List ℕ → List ℕ
trim_right [] = []
trim_right (c ∷ s) = let rest = trim_right s in if is_blank c && is_empty rest then [] else c ∷ rest

-- `trim_sv`.
unfoldable pub trim : List ℕ → List ℕ
unfolding trim_left trim_right
trim s = trim_right (trim_left s)

abbrev all_digits : List ℕ → Bool
all_digits [] = true
all_digits (c ∷ s) = is_digit c && all_digits s

-- `is_uint_sv`.
unfoldable pub is_uint : List ℕ → Bool
unfolding is_digit
is_uint [] = false
is_uint (c ∷ s) = all_digits (c ∷ s)

-- The fields between commas, trimmed, `max` of them at most.
unfoldable pub csv_fields : ℕ → List ℕ → List (List ℕ)
unfolding before after trim
csv_fields zero s = []
csv_fields (suc max) s =
    trim (before b',' s) ∷ elim (after b',' s) [ none ↦ [] | some r ↦ csv_fields max r ]

-- A field of digits only, as `std::atoi` reads it.
abbrev pub number : List ℕ → ℕ
number s = digits_from 0 s

-- The status of a registration line: its first field, or the second where both are numbers in the
-- range of `<n>,<stat>`; `none` is the initial -1.
unfoldable pub urc_stat : List (List ℕ) → Option ℕ
unfolding is_uint digits_from
urc_stat [] = none
urc_stat (f ∷ []) = if is_uint f then some (number f) else none
urc_stat (f ∷ g ∷ fields) =
    if is_uint f
    then if is_uint g && (leb (number f) 5 && leb (number g) 10)
      then some (number g)
      else some (number f)
    else none

unfoldable pub is_registered : Option ℕ → Bool
is_registered none = false
is_registered (some stat) = stat == 1 || stat == 5

abbrev pub max_fields : ℕ
max_fields = 8

abbrev pub u8_of : ℤ → ℕ
u8_of (pos n) = n % 256
u8_of (negsuc n) = 255 - n % 256

module _ {X : Type 0} where
  abbrev pub handle_stat : Option ℕ → NetworkLte X → NetworkLte X
  handle_stat stat s =
      if is_registered stat
      then record (call_action query_pdp_context s) { attach_retries = 0 }
      else s

  abbrev pub handle_registration : Option (List ℕ) → NetworkLte X → NetworkLte X
  handle_registration none s = s
  handle_registration (some payload) s = handle_stat (urc_stat (csv_fields max_fields payload)) s

  unfoldable pub handle_cgev : List ℕ → NetworkLte X → NetworkLte X
  unfolding has_prefix on_event
  handle_cgev ev s =
      if has_prefix (codes "NW_DEACT") ev || has_prefix (codes "ME DEACT") ev
      then on_event context_closed s
      else if has_prefix (codes "NW_DETACH") ev
          || has_prefix (codes "ME_DETACH") ev
          || has_prefix (codes "ME DETACH") ev
      then on_event NetworkLteEvent.network_detached s
      else if has_prefix (codes "REJECT") ev
      then on_event context_rejected s
      else s

  abbrev pub handle_sring : List ℕ → NetworkLte X → NetworkLte X
  handle_sring [] s = s
  handle_sring (c ∷ body) s =
      on_event data_available (record s { last_data_conn_id = u8_of (atoi (c ∷ body)) })

  unfoldable pub handle_urc : List ℕ → NetworkLte X → NetworkLte X
  unfolding handle_cgev has_prefix after skip_spaces urc_stat csv_fields is_registered on_event
      call_action atoi
  handle_urc urc s =
      if has_prefix (codes "+CREG:") urc || has_prefix (codes "+CEREG:") urc
      then handle_registration (after b':' urc) s
      else if has_prefix (codes "+CGEV:") urc
      then handle_cgev (skip_spaces (drop 6 urc)) s
      else if has_prefix (codes "%STATEV:") urc
      then s
      else if has_prefix (codes "#PSMURC:") urc
      then on_event psm_enter s
      else if has_prefix (codes "%NOTIFYEV:\"PLMNSEARCHEXH\"") urc
      then on_event NetworkLteEvent.network_detached s
      else if has_prefix (codes "SRING:") urc
      then handle_sring (skip_spaces (drop 6 urc)) s
      else if has_prefix (codes "$GPGSA,") urc
      then on_event gps_available s
      else s
