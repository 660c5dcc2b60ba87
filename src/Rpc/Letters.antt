-- ===== src/Rpc/Letters.antt =====
-- GET lines are read whatever the case of their letters (`handle_request` of
-- examples/desktop/app_rpc_server.cpp).
use x_e310_multi_os.Base.{
  ℕ, ◌≡◌, refl, ap, ap₂, List, [], ◌∷◌, ◌==◌, before, after, codes, arith, Bool-cases, Option-cases,
  inl, inr,
}
use mathlib.Core.Option
use x_e310_multi_os.NetworkLte.State.{NetworkLte}
use x_e310_multi_os.Rpc.Words.{upper, to_upper, rest_of}
use x_e310_multi_os.Rpc.Exchange.{Desktop, Reader}
use x_e310_multi_os.Rpc.Server.{handle_request}

upper-upper : (c : ℕ) → upper (upper c) ≡ upper c
unfolding upper
upper-upper c = ground arith

upper-space : (c : ℕ) → (upper c == 32) ≡ (c == 32)
unfolding upper
upper-space c = ground arith

to_upper-to_upper : (s : List ℕ) → to_upper (to_upper s) ≡ to_upper s
unfolding to_upper
to_upper-to_upper [] = refl
to_upper-to_upper (c ∷ s) = ap₂ (λ d t. d ∷ t) (upper-upper c) (to_upper-to_upper s)

before-to_upper : (s : List ℕ) → before b' ' (to_upper s) ≡ to_upper (before b' ' s)
unfolding before to_upper
before-to_upper [] = refl
before-to_upper (c ∷ s) = elim (Bool-cases (c == 32)) [
  | inl space ↦ rw (upper-space c, space) refl
  | inr other ↦ rw (upper-space c, other) (ap (λ t. upper c ∷ t) (before-to_upper s))
]

after-to_upper : (s : List ℕ) → after b' ' (to_upper s) ≡ Option.map to_upper (after b' ' s)
unfolding after to_upper
after-to_upper [] = refl
after-to_upper (c ∷ s) = elim (Bool-cases (c == 32)) [
  | inl space ↦ rw (upper-space c, space) refl
  | inr other ↦ rw (upper-space c, other) (after-to_upper s)
]

rest_of-to_upper : (s : List ℕ) → rest_of (to_upper s) ≡ to_upper (rest_of s)
unfolding rest_of to_upper
rest_of-to_upper s = elim (Option-cases (after b' ' s)) [
  | inl none_left ↦ rw (rest_of, after-to_upper s, none_left) refl
  | inr (rest, found) ↦ rw (rest_of, after-to_upper s, found) refl
]

module _ {X : Type 0} (reader : Reader) (turn : ℕ → Desktop X → Desktop X) (own_conn_id : ℕ)
    (state_text : NetworkLte X → List ℕ) where
  -- A GET line does what the line in capital letters does, and answers the same.
  pub handle_request-to_upper :
      (request : List ℕ) (d : Desktop X)
      → to_upper (before b' ' request) ≡ codes "GET"
      → handle_request reader turn own_conn_id state_text (to_upper request) d
        ≡ handle_request reader turn own_conn_id state_text request d
  unfolding handle_request
  handle_request-to_upper request d get =
      rw
        (
          handle_request,
          before-to_upper request,
          to_upper-to_upper (before b' ' request),
          rest_of-to_upper request,
          to_upper-to_upper (rest_of request),
          get,
        )
        refl
