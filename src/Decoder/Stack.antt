-- ===== src/Decoder/Stack.antt =====
-- decoder.go: the stack of open arrays and inline tables, of which the decoder holds sixteen in place
-- and the rest in a slice that grows.
pub mod Holds
pub mod Runs
use go_toml.Prelude.{
  ℕ, zero, suc, ◌+◌, ◌-◌, Bool, true, false, not, List, [], ◌∷◌, ◌++◌, Bytes, length, get_or, take,
  set, ltb, leb, ◌==◌, if◌then◌else◌,
}

abbrev pub container_array : ℕ
container_array = b'a'

abbrev pub container_inline : ℕ
container_inline = b'i'

-- The three fields of the decoder that hold the stack.
pub record Containers : Type 0 where
  pub container_stack : Bytes
  pub container_depth : ℕ
  pub container_extra : Bytes

-- `[16]byte{}` and the zero values.
abbrev pub no_containers : Containers
no_containers = record {
  container_stack = 0 ∷ 0 ∷ 0 ∷ 0 ∷ 0 ∷ 0 ∷ 0 ∷ 0 ∷ 0 ∷ 0 ∷ 0 ∷ 0 ∷ 0 ∷ 0 ∷ 0 ∷ 0 ∷ [];
  container_depth = 0;
  container_extra = [];
}

unfoldable pub innermost_is_array : Containers → Bool
innermost_is_array c =
    let n : ℕ = c.container_depth in
    let inline : ℕ = length c.container_stack in
    if n == 0
    then false
    else if leb n inline
    then get_or c.container_stack (n - 1) 0 == container_array
    else get_or c.container_extra (n - 1 - inline) 0 == container_array

unfoldable pub push_container : Containers → ℕ → Containers
push_container c k =
    let n : ℕ = c.container_depth in
    if ltb n (length c.container_stack)
    then record c { container_stack = set c.container_stack n k; container_depth = n + 1 }
    else record c { container_extra = c.container_extra ++ k ∷ []; container_depth = n + 1 }

-- A closer that does not match changes nothing.
unfoldable pub pop_container : Containers → ℕ → Containers
pop_container c want =
    let n : ℕ = c.container_depth in
    let inline : ℕ = length c.container_stack in
    let idx : ℕ = n - 1 - inline in
    if n == 0
    then c
    else if leb n inline
    then (if not (get_or c.container_stack (n - 1) 0 == want)
        then c
        else record c { container_depth = n - 1 })
    else if not (get_or c.container_extra idx 0 == want)
    then c
    else record c { container_extra = take idx c.container_extra; container_depth = n - 1 }
