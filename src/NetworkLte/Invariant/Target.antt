-- ===== src/NetworkLte/Invariant/Target.antt =====
-- How `go_to_state` (src/network_lte.cpp) ends, and what it keeps.
use x_e310_multi_os.Base.{
  ℕ, zero, suc, ◌≡◌, refl, Bool, true, false, Option, none, some, Bool-cases, ◌⊎◌, ap, inl, inr,
  arith,
}
use x_e310_multi_os.Modem.Interface.{Xe310}
use x_e310_multi_os.NetworkLte.Types.{NetworkLteState, NetworkLteState-discrete, ModemAction}
use x_e310_multi_os.NetworkLte.State.{NetworkLte}
use x_e310_multi_os.NetworkLte.ChangeState.Timed.{TimerMatches}
use x_e310_multi_os.NetworkLte.Loop.{loop, request, call_requested, gives_up, aborts, go_to_state}
use x_e310_multi_os.NetworkLte.Invariant.Power.{call_action-TimerMatches}
use x_e310_multi_os.NetworkLte.Invariant.Machine.{loop-TimerMatches}

-- One pass of the while loop of `go_to_state`, its calls taken as arguments.
module _ {A : Type 0} (P : Type 0) (aborted : A → Bool) (next : A → Option (Bool × A)) where
  abbrev round : Dec P → Bool → Option A → A → Option (Bool × A)
  round d stop passed s = elim d [
    | yes here ↦ some (true, s)
    | no away ↦ elim stop [
      | true ↦ some (false, s)
      | false ↦ elim passed [
        | none ↦ none
        | some s' ↦ elim (aborted s') [ true ↦ some (false, s') | false ↦ next s' ]
      ]
    ]
  ]

  -- How a pass ends: at the target, without a pass of the loop, or after one.
  abbrev Ends : Option A → A → Bool × A → Type 0
  Ends passed s r =
      (P × (r ≡ (true, s)))
      ⊎ ((r ≡ (false, s))
          ⊎ ((s' : A) × (passed ≡ some s') × ((r ≡ (false, s')) ⊎ (next s' ≡ some r))))

  round-Ends :
      (d : Dec P) (stop : Bool) (passed : Option A) (s : A) (r : Bool × A)
      → round d stop passed s ≡ some r
      → Ends passed s r
  round-Ends (yes here) stop passed s r e = inl (here, ground arith)
  round-Ends (no away) true passed s r e = inr (inl (ground arith))
  round-Ends (no away) false none s r e = ground arith
  round-Ends (no away) false (some s') s r e = inr (
      inr (
        s',
        refl,
        elim (Bool-cases (aborted s')) [ inl t ↦ inl (ground arith) | inr f ↦ inr (ground arith) ],
      ))

module _ {X : Type 0} (m : Xe310 X) where
  call_requested-TimerMatches :
      (action : Option ModemAction) (s : NetworkLte X)
      → TimerMatches s
      → TimerMatches (call_requested action s)
  call_requested-TimerMatches none s h = h
  call_requested-TimerMatches (some action) s h = call_action-TimerMatches action s h

  pass-Ends :
      (rounds fuel : ℕ) (target : NetworkLteState) (s : NetworkLte X) (r : Bool × NetworkLte X)
      → go_to_state m (suc rounds) fuel target s ≡ some r
      → Ends
          (s.state ≡ target)
          (λ t. aborts t.event)
          (go_to_state m rounds fuel target)
          (loop m fuel target (call_requested (request s.state target) s))
          s
          r
  unfolding go_to_state
  pass-Ends rounds fuel target s r e =
      round-Ends (s.state ≡ target) (λ t. aborts t.event) (go_to_state m rounds fuel target)
        (NetworkLteState-discrete s.state target) (gives_up s.state)
        (loop m fuel target (call_requested (request s.state target) s)) s r e

  -- A `go_to_state` that returns keeps the state timer off in every state that has no use of it.
  pub go_to_state-TimerMatches :
      (rounds fuel : ℕ) (target : NetworkLteState) (s : NetworkLte X) (result : Bool × NetworkLte X)
      → go_to_state m rounds fuel target s ≡ some result
      → TimerMatches s
      → TimerMatches result.1
  unfolding go_to_state
  go_to_state-TimerMatches zero fuel target s result e h = ground arith
  go_to_state-TimerMatches (suc rounds) fuel target s result e h =
      let s₁ = call_requested (request s.state target) s in
      let h₁ = call_requested-TimerMatches (request s.state target) s h in
      elim (pass-Ends rounds fuel target s result e) [
        | inl (here, r) ↦ rw r h
        | inr (inl r) ↦ rw r h
        | inr (inr (s₂, passed, inl r)) ↦ rw r (loop-TimerMatches m fuel target s₁ s₂ passed h₁)
        | inr (inr (s₂, passed, inr on)) ↦
            go_to_state-TimerMatches rounds fuel target s₂ result on
              (loop-TimerMatches m fuel target s₁ s₂ passed h₁)
      ]

  -- A `go_to_state` that returns true has reached the state it was asked for.
  pub go_to_state-reaches :
      (rounds fuel : ℕ) (target : NetworkLteState) (s s' : NetworkLte X)
      → go_to_state m rounds fuel target s ≡ some (true, s')
      → s'.state ≡ target
  unfolding go_to_state
  go_to_state-reaches zero fuel target s s' e = ground arith
  go_to_state-reaches (suc rounds) fuel target s s' e =
      elim (pass-Ends rounds fuel target s (true, s') e) [
        | inl (here, r) ↦ rw (ap (λ p. p.1) r) here
        | inr (inl r) ↦ ground arith
        | inr (inr (s₂, passed, inl r)) ↦ ground arith
        | inr (inr (s₂, passed, inr on)) ↦ go_to_state-reaches rounds fuel target s₂ s' on
      ]
