-- ===== src/ModemController/Poll/Lines.antt =====
-- The loop of `poll_urc` of src/modem_controller.cpp over the complete lines, against the list of
-- the lines.
use x_e310_multi_os.Base.{
  ℕ, zero, suc, ◌≤◌, ◌≡◌, refl, sym, ap, ◌∙◌, Bool, true, ◌&&◌, not, List, [], ◌∷◌, ◌++◌, take,
  take-all, length, length-append, append_assoc, append-nil, is_empty, ◌==◌, leb, if◌then◌else◌,
  arith, before, after, none, some, Bool-cases, inl, inr,
}
use x_e310_multi_os.FixedString.{of_view, push_back, push_back-bounded}
use x_e310_multi_os.ModemController.Urcs.{
  known_prefixes, has_any_prefix, strip_cr, keep_line, poll_lines, max_urc_lines, urc_line_max,
}

-- No byte of the line is a newline.
abbrev pub no_lf : List ℕ → Bool
no_lf [] = true
no_lf (c ∷ s) = not (c == 10) && no_lf s

abbrev pub all_no_lf : List (List ℕ) → Bool
all_no_lf [] = true
all_no_lf (line ∷ lines) = no_lf line && all_no_lf lines

-- Some lines, each with its newline, and the start of the next one.
abbrev pub wire : List (List ℕ) → List ℕ → List ℕ
wire [] tail = tail
wire (line ∷ lines) tail = line ++ (10 ∷ wire lines tail)

-- What a poll is to give out of these lines: those that a known prefix starts.
abbrev pub wanted : List (List ℕ) → List (List ℕ)
wanted [] = []
wanted (line ∷ lines) =
    let text = of_view urc_line_max (strip_cr line) in
    if not (is_empty text) && has_any_prefix known_prefixes text
    then text ∷ wanted lines
    else wanted lines

before-append : (line rest : List ℕ) → no_lf line ≡ true → before 10 (line ++ (10 ∷ rest)) ≡ line
unfolding before
before-append [] rest h = refl
before-append (c ∷ s) rest h = ground (arith, before-append s rest)

after-append : (line rest : List ℕ) → no_lf line ≡ true → after 10 (line ++ (10 ∷ rest)) ≡ some rest
unfolding after
after-append [] rest h = refl
after-append (c ∷ s) rest h = ground (arith, after-append s rest)

pub after-none : (s : List ℕ) → no_lf s ≡ true → after 10 s ≡ none
unfolding after
after-none [] h = refl
after-none (c ∷ s) h = ground (arith, after-none s)

take-length : {A : Type 0} (xs ys : List A) → take (length xs) (xs ++ ys) ≡ xs
take-length [] ys = refl
take-length (x ∷ xs) ys = ap (λ r. x ∷ r) (take-length xs ys)

take-append-all : {A : Type 0} (n : ℕ) (xs ys : List A) → length xs ≡ n → take n (xs ++ ys) ≡ xs
take-append-all n xs ys e = rw (sym e) (take-length xs ys)

-- Room for one more, or the first eight are already there.
push_back-take :
    (urcs rest : List (List ℕ)) (line : List ℕ)
    → length urcs ≤ max_urc_lines
    → take max_urc_lines ((push_back max_urc_lines urcs line).1 ++ rest)
      ≡ take max_urc_lines (urcs ++ (line ∷ rest))
unfolding push_back
push_back-take urcs rest line h = elim (Bool-cases (leb max_urc_lines (length urcs))) [
  | inl full ↦
      rw
        (
          full,
          take-append-all max_urc_lines urcs rest (ground arith),
          take-append-all max_urc_lines urcs (line ∷ rest) (ground arith),
        )
        refl
  | inr room ↦ rw (room, append_assoc urcs (line ∷ []) rest) refl
]

keep_line-take :
    (line : List ℕ) (rest urcs : List (List ℕ))
    → length urcs ≤ max_urc_lines
    → take max_urc_lines (keep_line line urcs ++ rest)
      ≡ take max_urc_lines (
          urcs
          ++ (if not (is_empty line) && has_any_prefix known_prefixes line
              then line ∷ rest
              else rest))
unfolding keep_line
keep_line-take line rest urcs h =
    elim (Bool-cases (not (is_empty line) && has_any_prefix known_prefixes line)) [
      | inl known ↦ rw (known, push_back-take urcs rest line h) refl
      | inr other ↦ rw other refl
    ]

keep_line-bounded :
    (line : List ℕ) (urcs : List (List ℕ))
    → length urcs ≤ max_urc_lines
    → length (keep_line line urcs) ≤ max_urc_lines
unfolding keep_line
keep_line-bounded line urcs h =
    elim (Bool-cases (not (is_empty line) && has_any_prefix known_prefixes line)) [
      | inl known ↦ rw known (push_back-bounded max_urc_lines urcs line h)
      | inr other ↦ rw other h
    ]

pub poll_lines-none :
    (fuel : ℕ) (tail : List ℕ) (urcs : List (List ℕ))
    → after 10 tail ≡ none
    → poll_lines fuel tail urcs ≡ (urcs, tail)
unfolding poll_lines
poll_lines-none zero tail urcs e = refl
poll_lines-none (suc fuel) tail urcs e = rw (e, poll_lines) refl

poll_lines-line :
    (fuel : ℕ) (line rest : List ℕ) (urcs : List (List ℕ))
    → no_lf line ≡ true
    → poll_lines (suc fuel) (line ++ (10 ∷ rest)) urcs
      ≡ poll_lines fuel rest (keep_line (of_view urc_line_max (strip_cr line)) urcs)
unfolding poll_lines
poll_lines-line fuel line rest urcs h =
    rw (after-append line rest h, before-append line rest h, poll_lines) refl

-- The number of bytes is fuel enough, and any more is as good.
pub poll_lines-wire :
    (fuel : ℕ) (lines : List (List ℕ)) (tail : List ℕ) (urcs : List (List ℕ))
    → all_no_lf lines ≡ true
    → no_lf tail ≡ true
    → length urcs ≤ max_urc_lines
    → length (wire lines tail) ≤ fuel
    → poll_lines fuel (wire lines tail) urcs ≡ (take max_urc_lines (urcs ++ wanted lines), tail)
poll_lines-wire fuel [] tail urcs h k le enough =
    poll_lines-none fuel tail urcs (after-none tail k)
    ∙ rw (append-nil urcs, take-all max_urc_lines urcs le) refl
poll_lines-wire zero (line ∷ lines) tail urcs h k le enough =
    absurd (omega (arith, length-append line (10 ∷ wire lines tail)))
poll_lines-wire (suc fuel) (line ∷ lines) tail urcs h k le enough =
    let text = of_view urc_line_max (strip_cr line) in
    poll_lines-line fuel line (wire lines tail) urcs (ground arith)
    ∙ poll_lines-wire fuel lines tail (keep_line text urcs) (ground arith) k
        (keep_line-bounded text urcs le) (omega (arith, length-append line (10 ∷ wire lines tail)))
    ∙ ap (λ r. (r, tail)) (keep_line-take text (wanted lines) urcs le)
