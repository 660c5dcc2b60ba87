-- ===== src/Rpc/Pairs.antt =====
-- What `apply_config_fields` of examples/desktop/rpc_helpers.h makes of a list of pairs.
use x_e310_multi_os.Base.{
  ◌≤◌, ℕ, zero, suc, ◌≡◌, refl, ◌∙◌, Bool, true, false, not, ◌&&◌, List, [], ◌∷◌, ◌++◌, length,
  length-append, ◌==◌, arith, before, after, skip_spaces, some,
}
use x_e310_multi_os.NetworkLte.State.{NetworkLteConfig}
use x_e310_multi_os.Rpc.Config.{apply_pair, apply_pairs, apply_config_fields}

abbrev pub lacks : ℕ → List ℕ → Bool
lacks d [] = true
lacks d (c ∷ s) = not (c == d) && lacks d s

-- A key has a byte, no `=` and no space in front; a value has no space.
abbrev pub is_key : List ℕ → Bool
is_key [] = false
is_key (c ∷ s) = not (c == b' ') && lacks b'=' (c ∷ s)

abbrev pub Pair : Type 0
Pair = List ℕ × List ℕ

abbrev pub all_pairs : List Pair → Bool
all_pairs [] = true
all_pairs ((key, val) ∷ ps) = is_key key && lacks b' ' val && all_pairs ps

-- `key=value` for each pair, each with a space behind it.
abbrev pub printed : List Pair → List ℕ
printed [] = []
printed ((key, val) ∷ ps) = key ++ (b'=' ∷ (val ++ (b' ' ∷ printed ps)))

-- The pairs one after the other.
abbrev pub applied : List Pair → Bool × NetworkLteConfig → Bool × NetworkLteConfig
unfolding apply_pair
applied [] r = r
applied ((key, val) ∷ ps) r = applied ps (apply_pair key val r)

pub before-lacks : (d : ℕ) (s rest : List ℕ) → lacks d s ≡ true → before d (s ++ (d ∷ rest)) ≡ s
unfolding before
before-lacks d [] rest h = ground arith
before-lacks d (c ∷ s) rest h = ground (arith, before-lacks d s rest)

pub after-lacks :
    (d : ℕ) (s rest : List ℕ) → lacks d s ≡ true → after d (s ++ (d ∷ rest)) ≡ some rest
unfolding after
after-lacks d [] rest h = ground arith
after-lacks d (c ∷ s) rest h = ground (arith, after-lacks d s rest)

skip_spaces-key : (key rest : List ℕ) → is_key key ≡ true → skip_spaces (key ++ rest) ≡ key ++ rest
unfolding skip_spaces
skip_spaces-key [] rest h = absurd (cc)
skip_spaces-key (c ∷ s) rest h = ground arith

is_key-lacks : (key : List ℕ) → is_key key ≡ true → lacks b'=' key ≡ true
is_key-lacks [] h = refl
is_key-lacks (c ∷ s) h = ground arith

apply_pairs-pair :
    (fuel : ℕ) (key val rest : List ℕ) (r : Bool × NetworkLteConfig)
    → is_key key ≡ true
    → lacks b' ' val ≡ true
    → apply_pairs (suc fuel) (key ++ (b'=' ∷ (val ++ (b' ' ∷ rest)))) r
      ≡ apply_pairs fuel rest (apply_pair key val r)
unfolding apply_pairs
apply_pairs-pair fuel key val rest r h k =
    let no_sign = is_key-lacks key h in
    let val_on = val ++ (b' ' ∷ rest) in
    rw
      (
        apply_pairs,
        skip_spaces-key key (b'=' ∷ val_on) h,
        after-lacks b'=' key val_on no_sign,
        after-lacks b' ' val rest k,
        skip_spaces-key key (b'=' ∷ val_on) h,
        before-lacks b'=' key val_on no_sign,
        before-lacks b' ' val rest k,
      )
      refl

apply_pairs-printed :
    (fuel : ℕ) (ps : List Pair) (r : Bool × NetworkLteConfig)
    → all_pairs ps ≡ true
    → length (printed ps) ≤ fuel
    → apply_pairs fuel (printed ps) r ≡ applied ps r
unfolding apply_pairs skip_spaces after
apply_pairs-printed zero [] r h le = refl
apply_pairs-printed (suc fuel) [] r h le = refl
apply_pairs-printed zero ((key, val) ∷ ps) r h le =
    absurd (omega (arith, length-append key (b'=' ∷ (val ++ (b' ' ∷ printed ps)))))
apply_pairs-printed (suc fuel) ((key, val) ∷ ps) r h le =
    let val_on = val ++ (b' ' ∷ printed ps) in
    let shorter : length (printed ps) ≤ fuel =
      omega (arith, length-append key (b'=' ∷ val_on), length-append val (b' ' ∷ printed ps)) in
    apply_pairs-pair fuel key val (printed ps) r (ground arith) (ground arith)
    ∙ apply_pairs-printed fuel ps (apply_pair key val r) (ground arith) shorter

-- A line of pairs `key=value`, each with a space behind it, is applied pair by pair, in the order
-- of the line and none left out, when no key is empty, has an `=` or starts with a space, and no
-- value has a space.
pub apply_config_fields-printed :
    (ps : List Pair) (cfg : NetworkLteConfig)
    → all_pairs ps ≡ true
    → apply_config_fields (printed ps) cfg ≡ applied ps (false, cfg)
unfolding apply_config_fields
apply_config_fields-printed ps cfg h =
    apply_pairs-printed (length (printed ps)) ps (false, cfg) h (omega arith)
