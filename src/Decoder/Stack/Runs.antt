-- ===== src/Decoder/Stack/Runs.antt =====
-- Sequences of pushes and pops on the decoder's stack and on the list that it stands for.
use go_toml.Prelude.{ℕ, ◌≡◌, List, [], ◌∷◌, length}
use go_toml.Decoder.Stack.{
  Containers, no_containers, innermost_is_array, push_container, pop_container,
}
use go_toml.Decoder.Stack.Holds.{
  Holds, top_is_array, pop_matching, no_containers-Holds, push_container-Holds, pop_container-Holds,
  innermost_is_array-Holds, Holds-depth,
}

-- What the scanners do to the stack.
pub data StackStep : Type 0 where
  push : ℕ → StackStep
  pop : ℕ → StackStep

abbrev pub run_containers : List StackStep → Containers → Containers
run_containers [] c = c
run_containers (push k ∷ steps) c = run_containers steps (push_container c k)
run_containers (pop want ∷ steps) c = run_containers steps (pop_container c want)

abbrev pub run_list : List StackStep → List ℕ → List ℕ
run_list [] ks = ks
run_list (push k ∷ steps) ks = run_list steps (k ∷ ks)
run_list (pop want ∷ steps) ks = run_list steps (pop_matching ks want)

run_containers-Holds :
    (steps : List StackStep) (c : Containers) (ks : List ℕ)
    → Holds c ks
    → Holds (run_containers steps c) (run_list steps ks)
run_containers-Holds [] c ks h = h
run_containers-Holds (push k ∷ steps) c ks h =
    run_containers-Holds steps (push_container c k) (k ∷ ks) (push_container-Holds c ks k h)
run_containers-Holds (pop want ∷ steps) c ks h =
    run_containers-Holds steps (pop_container c want) (pop_matching ks want)
      (pop_container-Holds c ks want h)

-- From an empty stack, after any pushes and pops, those that do not match their container included,
-- `innermostIsArray` and the depth are those of the list of open containers, however many of them
-- have gone to the slice that grows.
pub run_containers-run_list :
    (steps : List StackStep)
    → (innermost_is_array (run_containers steps no_containers) ≡ top_is_array (run_list steps []))
      × ((run_containers steps no_containers).container_depth ≡ length (run_list steps []))
run_containers-run_list steps =
    let h = run_containers-Holds steps no_containers [] no_containers-Holds in
    (
      innermost_is_array-Holds (run_containers steps no_containers) (run_list steps []) h,
      Holds-depth (run_containers steps no_containers) (run_list steps []) h,
    )
