-- ===== src/Prelude/Loop.antt =====
-- Loops on fuel: a turn either leaves the loop with a result or goes on in another state.
use Prim.Native.Nat.{ℕ, zero, suc, ◌<◌}
use mathlib.Core.Path.{◌≡◌, refl}
use mathlib.Core.Logic.{◌⊎◌, inl, inr}
use native.Mathlib.Omega.{arith}

module _ {ℓ κ} {S : Type ℓ} {R : Type κ} where
  -- `out` is the answer of a loop that has no fuel left.
  unfoldable pub loop : (S → R ⊎ S) → R → ℕ → S → R
  loop turn out zero s = out
  loop turn out (suc fuel) s = elim (turn s) [ inl r ↦ r | inr s' ↦ loop turn out fuel s' ]

  pub turn-cases : (t : R ⊎ S) → ((r : R) × (t ≡ inl r)) ⊎ ((s : S) × (t ≡ inr s))
  turn-cases (inl r) = inl (r, refl)
  turn-cases (inr s) = inr (s, refl)

  -- A loop whose turns bring a number down has enough fuel with one more than that number: its answer
  -- is that of the turn that leaves it. An invariant holds in the state of that turn.
  pub loop_ends {ι} :
      (turn : S → R ⊎ S) (out : R) (left : S → ℕ) (Inv : S → Type ι)
      → ((s s' : S) → Inv s → turn s ≡ inr s' → (left s' < left s) × Inv s')
      → (fuel : ℕ) (s : S) → left s < fuel
      → Inv s
      → (last : S) × (r : R) × (turn last ≡ inl r) × (loop turn out fuel s ≡ r) × Inv last
  unfolding loop
  loop_ends turn out left Inv down zero s h hs = absurd (omega arith)
  loop_ends turn out left Inv down (suc fuel) s h hs = elim (turn-cases (turn s)) [
    | inl (r, e) ↦ (s, r, e, rw (loop, e) refl, hs)
    | inr (s', e) ↦
        let (less, hs') = down s s' hs e in
        let (last, r, at, answer, inv) =
          loop_ends turn out left Inv down fuel s' (omega arith) hs' in
        (last, r, at, rw (loop, e) answer, inv)
  ]

  -- The fuel does not matter where there is enough of it.
  pub loop_fuel {ι} :
      (turn : S → R ⊎ S) (out : R) (left : S → ℕ) (Inv : S → Type ι)
      → ((s s' : S) → Inv s → turn s ≡ inr s' → (left s' < left s) × Inv s')
      → (fuel fuel' : ℕ) (s : S) → left s < fuel
      → left s < fuel'
      → Inv s
      → loop turn out fuel s ≡ loop turn out fuel' s
  unfolding loop
  loop_fuel turn out left Inv down zero fuel' s h h' hs = absurd (omega arith)
  loop_fuel turn out left Inv down (suc fuel) zero s h h' hs = absurd (omega arith)
  loop_fuel turn out left Inv down (suc fuel) (suc fuel') s h h' hs = elim (turn-cases (turn s)) [
    | inl (r, e) ↦ rw (loop, e) refl
    | inr (s', e) ↦
        let (less, hs') = down s s' hs e in
        rw (loop, e)
          (loop_fuel turn out left Inv down fuel fuel' s' (omega arith) (omega arith) hs')
  ]

  -- One turn of a loop.
  pub loop-suc-inl :
      (turn : S → R ⊎ S) (out : R) (fuel : ℕ) (s : S) {r : R}
      → turn s ≡ inl r
      → loop turn out (suc fuel) s ≡ r
  unfolding loop
  loop-suc-inl turn out fuel s e = rw (loop, e) refl

  pub loop-suc-inr :
      (turn : S → R ⊎ S) (out : R) (fuel : ℕ) (s : S) {s' : S}
      → turn s ≡ inr s'
      → loop turn out (suc fuel) s ≡ loop turn out fuel s'
  unfolding loop
  loop-suc-inr turn out fuel s e = rw (loop, e) refl

-- What a turn gives, seen through maps of the answers and of the states.
abbrev pub both {ℓ κ μ ν} :
    {R : Type ℓ} {S : Type κ} {R' : Type μ} {S' : Type ν} → (R → R') → (S → S') → R ⊎ S → R' ⊎ S'
both g f (inl r) = inl (g r)
both g f (inr s) = inr (f s)

-- A loop whose turns are those of another one, seen through such maps.
pub loop-both {ℓ κ} :
    {R S : Type ℓ} {R' S' : Type κ} (g : R → R') (f : S → S') (turn : S → R ⊎ S)
    (turn' : S' → R' ⊎ S') (out : R)
    → ((s : S) → turn' (f s) ≡ both g f (turn s))
    → (fuel : ℕ) (s : S) → loop turn' (g out) fuel (f s) ≡ g (loop turn out fuel s)
unfolding loop
loop-both g f turn turn' out same zero s = refl
loop-both g f turn turn' out same (suc fuel) s = elim (turn-cases (turn s)) [
  | inl (r, e) ↦ rw (loop, same s, e) refl
  | inr (s', e) ↦ rw (loop, same s, e) (loop-both g f turn turn' out same fuel s')
]
