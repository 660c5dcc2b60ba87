-- ===== src/Modem/Parse/Registration.antt =====
-- What `get_registration_status` of src/xe310.cpp makes of the answer `+CEREG: <n>,<stat>,"<tac>",
-- "<ci>",<AcT>`.
use x_e310_multi_os.Base.{
  ℕ, ◌≤◌, ◌<◌, ◌≡◌, refl, ap, ◌∙◌, true, List, [], ◌∷◌, ◌++◌, length, codes, show, arith,
  comma_joined, atoi, atoi-show, show-all_digits, show-length, show-some, after,
}
use x_e310_multi_os.FixedString.{of_view-fits}
use x_e310_multi_os.Modem.Types.{ModemStatus, RegistrationInfo}
use x_e310_multi_os.Modem.Text.{
  reg_status_of, radio_tech_of, strip, strip_left, c_str, wrap, tokens,
}
use x_e310_multi_os.Modem.Text.Fields.{
  is_plain, strip-plain, strip-quoted, c_str-plain, all_digits-is_plain, tokens-joined,
  quoted-no_comma, show-no_comma,
}
use x_e310_multi_os.Modem.Parse.Network.{clean_field, set_registration, parse_registration}

abbrev pub in_quotes : List ℕ → List ℕ
in_quotes s = 34 ∷ s ++ 34 ∷ []

abbrev pub registration_answer : ℕ → ℕ → List ℕ → List ℕ → ℕ → List ℕ
registration_answer mode stat lac ci act =
    codes "+CEREG: "
    ++ comma_joined (show mode) (show stat ∷ in_quotes lac ∷ in_quotes ci ∷ show act ∷ [])

pub clean_field-quoted :
    (s : List ℕ) → is_plain s ≡ true → length s ≤ 31 → clean_field (in_quotes s) ≡ s
clean_field-quoted s h le = ap (c_str 31) (strip-quoted s h) ∙ c_str-plain 31 s h le

pub clean_field-plain : (s : List ℕ) → is_plain s ≡ true → length s ≤ 31 → clean_field s ≡ s
clean_field-plain s h le = ap (c_str 31) (strip-plain s h) ∙ c_str-plain 31 s h le

pub clean_field-show : (n : ℕ) → clean_field (show n) ≡ show n
clean_field-show n =
    clean_field-plain (show n) (all_digits-is_plain (show n) (show-all_digits n))
      (omega (arith, show-length n))

-- The blank after the colon does no harm.
pub clean_field-blank : (s : List ℕ) → clean_field (32 ∷ s) ≡ clean_field s
unfolding strip strip_left
clean_field-blank s = refl

pub small_number : (n : ℕ) → n < 256 → wrap 256 (atoi (show n)) ≡ n
small_number n h = ap (wrap 256) (atoi-show n (omega arith)) ∙ omega arith

-- The fields that the answer is taken apart into.
registration_fields :
    (mode stat : ℕ) (lac ci : List ℕ) (act : ℕ)
    → is_plain lac ≡ true
    → is_plain ci ≡ true
    → length lac ≤ 31
    → length ci ≤ 31
    → tokens clean_field 8
        (32 ∷ comma_joined (show mode) (show stat ∷ in_quotes lac ∷ in_quotes ci ∷ show act ∷ []))
      ≡ show mode ∷ show stat ∷ lac ∷ ci ∷ show act ∷ []
registration_fields mode stat lac ci act lac_plain ci_plain lac_fits ci_fits =
    tokens-joined clean_field 8 (32 ∷ show mode)
      (show stat ∷ in_quotes lac ∷ in_quotes ci ∷ show act ∷ [])
      (
        show-no_comma mode,
        refl,
        (
          show-no_comma stat,
          show-some stat,
          (
            quoted-no_comma lac lac_plain,
            refl,
            (quoted-no_comma ci ci_plain, refl, (show-no_comma act, show-some act, tt)),
          ),
        ),
      )
      (omega arith)
    ∙ rw
        (
          clean_field-blank (show mode),
          clean_field-show mode,
          clean_field-show stat,
          clean_field-quoted lac lac_plain lac_fits,
          clean_field-quoted ci ci_plain ci_fits,
          clean_field-show act,
        )
        refl

-- A registration is read back: mode, status, technology, and the two codes if they are plain texts
-- of at most 31 bytes.
pub parse_registration-answer :
    (mode stat : ℕ) (lac ci : List ℕ) (act : ℕ) (old : RegistrationInfo)
    → mode < 256
    → stat < 256
    → act < 256
    → is_plain lac ≡ true
    → is_plain ci ≡ true
    → length lac ≤ 31
    → length ci ≤ 31
    → parse_registration old (registration_answer mode stat lac ci act) ≡ (
      ModemStatus.ok,
      record old {
        mode = mode;
        stat = reg_status_of stat;
        lac = lac;
        ci = ci;
        has_location = true;
        act = radio_tech_of act;
      },
    )
unfolding parse_registration after set_registration
parse_registration-answer mode stat lac ci act old m s a lac_plain ci_plain lac_fits ci_fits =
    ap (λ fs. (ModemStatus.ok, set_registration old fs))
      (registration_fields mode stat lac ci act lac_plain ci_plain lac_fits ci_fits)
    ∙ rw
        (
          small_number mode m,
          small_number stat s,
          small_number act a,
          of_view-fits 32 lac (omega arith),
          of_view-fits 32 ci (omega arith),
        )
        refl
