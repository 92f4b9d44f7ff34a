-- ===== src/Decoder/Stack/Holds.antt =====
-- The decoder's stack holds the list of the containers that are open, the innermost first.
use go_toml.Prelude.{
  ℕ, suc, ◌+◌, ◌-◌, ◌≤◌, ◌<◌, ◌≡◌, ◌⊎◌, inl, inr, refl, sym, ap, ◌∙◌, arith, Bool, true, false,
  List, [], ◌∷◌, ◌++◌, append-nil, append_assoc, Bytes, length, get_or, take, ltb, leb, ◌==◌,
  if◌then◌else◌, Bool-cases, length-append, length-take,
}
use go_toml.Prelude.Ends.{append-snoc-inj, take-suc, take-set, length-set, take_all, no_extra}
use go_toml.Decoder.Stack.{
  Containers, container_array, no_containers, innermost_is_array, push_container, pop_container,
}

abbrev pub outermost_first : List ℕ → Bytes
outermost_first [] = []
outermost_first (k ∷ ks) = outermost_first ks ++ k ∷ []

-- The bytes that the two stores hold, the outermost first.
abbrev view : Containers → Bytes
view c = take c.container_depth c.container_stack ++ c.container_extra

pub record Holds (c : Containers) (ks : List ℕ) : Type 0 where
  pub inline : length c.container_stack ≡ 16
  pub spilled : length c.container_extra ≡ c.container_depth - 16
  pub holds : view c ≡ outermost_first ks

length-outermost_first : (ks : List ℕ) → length (outermost_first ks) ≡ length ks
length-outermost_first [] = refl
length-outermost_first (k ∷ ks) =
    omega (arith, length-append (outermost_first ks) (k ∷ []), length-outermost_first ks)

pub no_containers-Holds : Holds no_containers []
no_containers-Holds = record { inline = refl; spilled = refl; holds = refl }

pub push_container-Holds :
    (c : Containers) (ks : List ℕ) (k : ℕ) → Holds c ks → Holds (push_container c k) (k ∷ ks)
unfolding push_container
push_container-Holds c ks k h =
    elim (Bool-cases (ltb c.container_depth (length c.container_stack))) [
      | inl room ↦
          let under : c.container_depth < length c.container_stack = ground arith in
          let none_over = no_extra c.container_extra (omega (arith, h.inline, h.spilled)) in
          let n_suc : c.container_depth + 1 ≡ suc c.container_depth = omega arith in
          let held : take c.container_depth c.container_stack ≡ outermost_first ks =
            sym (append-nil (take c.container_depth c.container_stack))
            ∙ ap (λ e. take c.container_depth c.container_stack ++ e) (sym none_over)
            ∙ h.holds in
          rw room (record {
            inline = length-set c.container_depth k c.container_stack ∙ h.inline;
            spilled = omega (arith, h.inline, h.spilled);
            holds =
                rw (n_suc, take-set c.container_depth k c.container_stack under, none_over, held)
                  (append-nil (outermost_first ks ++ k ∷ []));
          })
      | inr full ↦
          let over : length c.container_stack ≤ c.container_depth = ground arith in
          let held = take_all c.container_depth c.container_stack over in
          let held' = take_all (c.container_depth + 1) c.container_stack (omega arith) in
          rw full (record {
            inline = h.inline;
            spilled = omega (arith, h.inline, h.spilled, length-append c.container_extra (k ∷ []));
            holds = rw held' (
                sym (append_assoc c.container_stack c.container_extra (k ∷ []))
                ∙ ap (λ t. t ++ k ∷ []) (ap (λ t. t ++ c.container_extra) (sym held) ∙ h.holds));
          })
    ]

pub Holds-depth : (c : Containers) (ks : List ℕ) → Holds c ks → c.container_depth ≡ length ks
Holds-depth c ks h = omega (
  arith,
  h.inline,
  h.spilled,
  length-append (take c.container_depth c.container_stack) c.container_extra,
  length-take c.container_depth c.container_stack,
  ap length h.holds,
  length-outermost_first ks,
)

-- The innermost container, in the store that has it.
Top : Containers → ℕ → List ℕ → Type 0
Top c k ks =
    (leb c.container_depth (length c.container_stack) ≡ true)
      × (get_or c.container_stack (c.container_depth - 1) 0 ≡ k)
      × (take (c.container_depth - 1) c.container_stack ≡ outermost_first ks)
      × (c.container_extra ≡ [])
    ⊎ (leb c.container_depth (length c.container_stack) ≡ false)
      × (get_or c.container_extra (c.container_depth - 1 - length c.container_stack) 0 ≡ k)
      × (c.container_stack
            ++ take (c.container_depth - 1 - length c.container_stack) c.container_extra
          ≡ outermost_first ks)

Holds-Top : (c : Containers) (k : ℕ) (ks : List ℕ) → Holds c (k ∷ ks) → Top c k ks
unfolding Top
Holds-Top c k ks h =
    let depth = Holds-depth c (k ∷ ks) h in
    elim (Bool-cases (leb c.container_depth (length c.container_stack))) [
      | inl inside ↦
          let m : ℕ = c.container_depth - 1 in
          let none_over = no_extra c.container_extra (ground (arith, h.inline, h.spilled)) in
          let n_suc : c.container_depth ≡ suc m = omega arith in
          let (below, top) =
            append-snoc-inj (take m c.container_stack) (outermost_first ks)
              (get_or c.container_stack m 0) k
              (sym (take-suc m c.container_stack (ground (arith, depth)))
                ∙ ap (λ (n : ℕ). take n c.container_stack) (sym n_suc)
                ∙ sym (append-nil (take c.container_depth c.container_stack))
                ∙ ap (λ e. take c.container_depth c.container_stack ++ e) (sym none_over)
                ∙ h.holds) in
          inl (inside, top, below, none_over)
      | inr outside ↦
          let idx : ℕ = c.container_depth - 1 - length c.container_stack in
          let over : length c.container_stack < c.container_depth = ground arith in
          let last : length c.container_extra ≡ suc idx = omega (arith, h.inline, h.spilled) in
          let split =
            sym (take_all (suc idx) c.container_extra (omega arith))
            ∙ take-suc idx c.container_extra (omega arith) in
          let (below, top) =
            append-snoc-inj (c.container_stack ++ take idx c.container_extra) (outermost_first ks)
              (get_or c.container_extra idx 0) k
              (append_assoc c.container_stack (take idx c.container_extra)
                  (get_or c.container_extra idx 0 ∷ [])
                ∙ ap (λ t. c.container_stack ++ t) (sym split)
                ∙ ap (λ t. t ++ c.container_extra)
                    (sym (take_all c.container_depth c.container_stack (omega arith)))
                ∙ h.holds) in
          inr (outside, top, below)
    ]

-- `innermostIsArray` on the list.
abbrev pub top_is_array : List ℕ → Bool
top_is_array [] = false
top_is_array (k ∷ ks) = k == container_array

abbrev pub pop_matching : List ℕ → ℕ → List ℕ
pop_matching [] want = []
pop_matching (k ∷ ks) want = if k == want then ks else k ∷ ks

pub innermost_is_array-Holds :
    (c : Containers) (ks : List ℕ) → Holds c ks → innermost_is_array c ≡ top_is_array ks
unfolding innermost_is_array Top
innermost_is_array-Holds c [] h = rw (Holds-depth c [] h) refl
innermost_is_array-Holds c (k ∷ ks) h =
    let nonzero : (c.container_depth == 0) ≡ false = ground (arith, Holds-depth c (k ∷ ks) h) in
    elim (Holds-Top c k ks h) [
      | inl (inside, top, below, none_over) ↦ rw (nonzero, inside, top) refl
      | inr (outside, top, below) ↦ rw (nonzero, outside, top) refl
    ]

pub pop_container-Holds :
    (c : Containers) (ks : List ℕ) (want : ℕ)
    → Holds c ks
    → Holds (pop_container c want) (pop_matching ks want)
unfolding pop_container Top
pop_container-Holds c [] want h =
    let z : (c.container_depth == 0) ≡ true = ground (arith, Holds-depth c [] h) in rw z h
pop_container-Holds c (k ∷ ks) want h =
    let depth = Holds-depth c (k ∷ ks) h in
    let nonzero : (c.container_depth == 0) ≡ false = ground (arith, depth) in
    elim (Bool-cases (k == want)) [
      | inr other ↦ elim (Holds-Top c k ks h) [
        | inl (inside, top, below, none_over) ↦ rw (nonzero, inside, top, other) h
        | inr (outside, top, below) ↦ rw (nonzero, outside, top, other) h
      ]
      | inl same ↦ elim (Holds-Top c k ks h) [
        | inl (inside, top, below, none_over) ↦
            rw (nonzero, inside, top, same)
              (record {
                inline = h.inline;
                spilled = ground (arith, h.inline, h.spilled);
                holds = rw (none_over, below) (append-nil (outermost_first ks));
              })
        | inr (outside, top, below) ↦
            let full =
              take_all (c.container_depth - 1) c.container_stack (ground (arith, outside)) in
            rw (nonzero, outside, top, same)
              (record {
                inline = h.inline;
                spilled = ground (
                  arith,
                  h.inline,
                  h.spilled,
                  length-take (c.container_depth - 1 - length c.container_stack) c.container_extra,
                );
                holds = rw full below;
              })
      ]
    ]
