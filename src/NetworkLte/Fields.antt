-- ===== src/NetworkLte/Fields.antt =====
-- The lines that report a registration (`handle_urc` of src/network_lte.cpp): their fields, and what
-- a registered network sets off.
use x_e310_multi_os.Base.{
  no_comma, comma_joined, before-comma, after-comma, before-all, after-all, ℕ, zero, suc, ◌≤◌, ◌≡◌,
  ◌⊎◌, refl, ap, ap₂, ◌∙◌, true, List, [], ◌∷◌, ◌++◌, length, if◌then◌else◌, codes, has_prefix,
  before, after, arith, some,
}
use x_e310_multi_os.NetworkLte.Types.{query_pdp_context}
use x_e310_multi_os.NetworkLte.State.{NetworkLte}
use x_e310_multi_os.NetworkLte.Events.{call_action}
use x_e310_multi_os.NetworkLte.Urc.{
  trim, trim_left, csv_fields, is_uint, number, urc_stat, is_registered, max_fields, handle_stat,
  handle_urc,
}

-- Fields that a line can carry: without a comma, and without a blank at either end.
abbrev pub Clean : List (List ℕ) → Type 0
Clean [] = Unit {0}
Clean (f ∷ fields) = (no_comma f ≡ true) × (trim f ≡ f) × Clean fields

-- Reading back: clean fields that were joined by commas are found again, all of them, up to the
-- maximum that is asked for.
pub csv_fields-joined :
    (max : ℕ) (f : List ℕ) (fields : List (List ℕ))
    → Clean (f ∷ fields)
    → length (f ∷ fields) ≤ max
    → csv_fields max (comma_joined f fields) ≡ f ∷ fields
unfolding csv_fields
csv_fields-joined zero f fields h le = absurd (omega arith)
csv_fields-joined (suc max) f [] (plain, trimmed, rest) le =
    rw (before-all f plain, after-all f plain) (ap (λ g. g ∷ []) trimmed)
csv_fields-joined (suc max) f (g ∷ fields) (plain, trimmed, rest) le =
    rw (before-comma f (comma_joined g fields) plain, after-comma f (comma_joined g fields) plain)
      (ap₂ (λ g gs. g ∷ gs) trimmed (csv_fields-joined max g fields rest (omega arith)))

-- The blank after the colon does no harm.
csv_fields-blank : (max : ℕ) (s : List ℕ) → csv_fields max (32 ∷ s) ≡ csv_fields max s
unfolding csv_fields before after trim trim_left
csv_fields-blank zero s = refl
csv_fields-blank (suc max) s = refl

-- The `<stat>` of a `<n>,<stat>,…` report.
urc_stat-report :
    (n stat : List ℕ) (fields : List (List ℕ))
    → is_uint n ≡ true
    → is_uint stat ≡ true
    → number n ≤ 5
    → number stat ≤ 10
    → urc_stat (n ∷ stat ∷ fields) ≡ some (number stat)
unfolding urc_stat
urc_stat-report n stat fields u v le le' = ground arith

module _ {X : Type 0} where
  -- A `+CEREG: <n>,<stat>,…` line whose `<stat>` is 1 or 5, with up to six more fields, makes the
  -- machine ask for its PDP context and forget the retries; its state and its event stay.
  pub handle_urc-registered :
      (n stat : List ℕ) (fields : List (List ℕ)) (s : NetworkLte X)
      → Clean (n ∷ stat ∷ fields)
      → length fields ≤ 6
      → is_uint n ≡ true
      → is_uint stat ≡ true
      → number n ≤ 5
      → (number stat ≡ 1) ⊎ (number stat ≡ 5)
      → handle_urc (codes "+CEREG: " ++ comma_joined n (stat ∷ fields)) s
        ≡ record (call_action query_pdp_context s) { attach_retries = 0 }
  unfolding handle_urc has_prefix after is_registered call_action
  handle_urc-registered n stat fields s clean short u v le reg =
      let read =
        csv_fields-blank max_fields (comma_joined n (stat ∷ fields))
        ∙ csv_fields-joined max_fields n (stat ∷ fields) clean (omega arith) in
      let known = ap urc_stat read ∙ urc_stat-report n stat fields u v le (ground arith) in
      let one : is_registered (some (number stat)) ≡ true = ground arith in
      ap (λ r. handle_stat r s) known
      ∙ ap (λ b. if b then record (call_action query_pdp_context s) { attach_retries = 0 } else s)
          one
