-- ===== src/Modem/Parse/Bands.antt =====
-- What `get_bands` of src/xe310.cpp makes of the five masks that `set_bands` prints.
use x_e310_multi_os.Base.{
  ℕ, ◌<◌, ◌^◌, ◌≡◌, refl, ap, ◌∙◌, true, false, List, [], ◌∷◌, ◌++◌, codes, show, ◌==◌, arith,
  comma_joined, all_digits, show-all_digits, show-some, digits_from-show, is_digit, is_space, after,
  some, is_empty,
}
use x_e310_multi_os.Modem.Types.{ModemStatus}
use x_e310_multi_os.Modem.Configs.{BandConfig}
use x_e310_multi_os.Modem.Text.{tokens, strtoull, magnitude, after_digits}
use x_e310_multi_os.Modem.Text.Fields.{tokens-joined, show-no_comma}
use x_e310_multi_os.Modem.Parse.Network.{clean_field, bands_of, read_bands, parse_bands, parse_u64}
use x_e310_multi_os.Modem.Parse.Registration.{clean_field-blank, clean_field-show}

after_digits-all : (s : List ℕ) → all_digits s ≡ true → after_digits s ≡ []
unfolding after_digits is_digit
after_digits-all [] h = refl
after_digits-all (c ∷ s) h = ground (arith, after_digits-all s)

strtoull-digits :
    (s : List ℕ)
    → all_digits s ≡ true
    → is_empty s ≡ false
    → strtoull s ≡ some (magnitude s, after_digits s)
unfolding strtoull is_space is_digit
strtoull-digits [] h e = absurd (cc)
strtoull-digits (c ∷ s) h e =
    let no_space : is_space c ≡ false = ground arith in
    let no_plus : (c == 43) ≡ false = ground arith in
    let no_minus : (c == 45) ≡ false = ground arith in
    let digit : is_digit c ≡ true = ground arith in rw (no_space, no_plus, no_minus, digit) refl

parse_u64-show : (n : ℕ) → n < 2 ^ 64 → parse_u64 (show n) ≡ some n
unfolding parse_u64 magnitude
parse_u64-show n h =
    let digits = digits_from-show n (omega arith) in
    let read = strtoull-digits (show n) (show-all_digits n) (show-some n) in
    rw (read, after_digits-all (show n) (show-all_digits n), digits) (ap some (omega arith))

-- The body of the answer with five masks.
abbrev pub bands_answer : BandConfig → List ℕ
bands_answer b =
    codes "#BND: "
    ++ comma_joined (show b.gsm_mask)
        (show b.umts_mask ∷ show b.lte_mask ∷ show b.tdscdma_mask ∷ show b.lte_mask_over_64 ∷ [])

bands_fields :
    (a b c d e : ℕ)
    → tokens clean_field 5 (32 ∷ comma_joined (show a) (show b ∷ show c ∷ show d ∷ show e ∷ []))
      ≡ show a ∷ show b ∷ show c ∷ show d ∷ show e ∷ []
bands_fields a b c d e =
    tokens-joined clean_field 5 (32 ∷ show a) (show b ∷ show c ∷ show d ∷ show e ∷ [])
      (
        show-no_comma a,
        refl,
        (
          show-no_comma b,
          show-some b,
          (
            show-no_comma c,
            show-some c,
            (show-no_comma d, show-some d, (show-no_comma e, show-some e, tt)),
          ),
        ),
      )
      (omega arith)
    ∙ rw
        (
          clean_field-blank (show a),
          clean_field-show a,
          clean_field-show b,
          clean_field-show c,
          clean_field-show d,
          clean_field-show e,
        )
        refl

-- Five masks of 64 bits are read back, whatever the parameter held.
pub parse_bands-answer :
    (bands old : BandConfig)
    → bands.gsm_mask < 2 ^ 64
    → bands.umts_mask < 2 ^ 64
    → bands.lte_mask < 2 ^ 64
    → bands.tdscdma_mask < 2 ^ 64
    → bands.lte_mask_over_64 < 2 ^ 64
    → parse_bands old (bands_answer bands) ≡ (ModemStatus.ok, bands)
unfolding parse_bands after bands_of
parse_bands-answer b old gsm umts lte tdscdma over =
    ap (λ fs. read_bands old (bands_of fs))
      (bands_fields b.gsm_mask b.umts_mask b.lte_mask b.tdscdma_mask b.lte_mask_over_64)
    ∙ rw
        (
          parse_u64-show b.gsm_mask gsm,
          parse_u64-show b.umts_mask umts,
          parse_u64-show b.lte_mask lte,
          parse_u64-show b.tdscdma_mask tdscdma,
          parse_u64-show b.lte_mask_over_64 over,
        )
        refl
