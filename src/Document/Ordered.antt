-- ===== src/Document/Ordered.antt =====
-- document.go: about the sorting of edits.
use go_toml.Prelude.{ℕ, suc, ◌≤◌, ◌≡◌, refl, arith, false, List, [], ◌∷◌, ltb, ◌==◌, if◌then◌else◌}
use go_toml.Document.Splice.{Op, op_less, insert_op, sort_ops}

-- Edits from the place `p` and the number `o` on, each at or behind the end of the one before.
unfoldable pub Ordered : ℕ → ℕ → List Op → Type 0
Ordered p o [] = Unit {0}
Ordered p o (op ∷ ops) =
    (p ≤ op.start) × (op.start ≤ op.end) × (o ≤ op.order) × Ordered op.end (suc op.order) ops

less_ways :
    (xs xe xo ys ye yo : ℕ)
    → xs ≤ xe
    → xe ≤ ys
    → ys ≤ ye
    → suc xo ≤ yo
    → (if ys == xs then (if ye == xe then ltb yo xo else ltb ye xe) else ltb ys xs) ≡ false
less_ways xs xe xo ys ye yo a b c o = ground arith

insert_op-Ordered :
    (x : Op) (ops : List Op)
    → x.start ≤ x.end
    → Ordered x.end (suc x.order) ops
    → insert_op x ops ≡ x ∷ ops
unfolding Ordered op_less
insert_op-Ordered x [] ends later = refl
insert_op-Ordered x (y ∷ ops) ends (at, inside, number, rest) =
    rw (op_less, less_ways x.start x.end x.order y.start y.end y.order ends at inside number) refl

-- A sort leaves such edits as they are.
pub sort_ops-Ordered : (ops : List Op) (p o : ℕ) → Ordered p o ops → sort_ops ops ≡ ops
unfolding sort_ops Ordered
sort_ops-Ordered [] p o h = refl
sort_ops-Ordered (x ∷ ops) p o (at, ends, number, later) =
    rw (sort_ops-Ordered ops x.end (suc x.order) later) (insert_op-Ordered x ops ends later)

-- Such edits are so from any earlier place and number.
pub Ordered-earlier :
    (ops : List Op) (p p' o o' : ℕ) → p' ≤ p → o' ≤ o → Ordered p o ops → Ordered p' o' ops
unfolding Ordered
Ordered-earlier [] p p' o o' h k x = tt
Ordered-earlier (op ∷ ops) p p' o o' h k (at, ends, number, later) =
    (omega (arith, h, at), ends, omega (arith, k, number), later)
