-- ===== src/Tests/Vectors.antt =====
-- Vectors of 33 elements: a trie of one leaf, and a tail of one element.
use clojure_rt.Base.{
  ◌↔◌, ◌>>=◌, ◌+◌, ℕ, zero, suc, ◌+◌, ◌≡◌, refl, Bool, true, false, none, some, List, [], ◌∷◌, ◌++◌,
  init, get_elem?, foldl, arith, ◌==◌, negsuc, Outcome, ok, throw, illegal_state, illegal_argument,
  Option, if◌then◌else◌,
}
use clojure_rt.Value.{RtValue, box_nil, box_int32, is_int32, unbox_int32}
use clojure_rt.Vector.Node.{Leaf, new_leaf, leaf, internal, Nodes, nil, cons}
use clojure_rt.Vector.Ops.{Vector, persistent, conj, assoc, pop, nth}
use clojure_rt.Vector.Shape.{contents}
use clojure_rt.Vector.Valid.{elements, IsValid, Yields}
use clojure_rt.Vector.Refine.{conj-Yields, checked, nth-checked}
use clojure_rt.Vector.Update.{assoc_list, assoc-Yields}
use clojure_rt.Vector.Shrink.{pop-Yields}
use clojure_rt.Functions.Ops.{Method, Function, method_for}
use clojure_rt.Vector.Fold.{contains, contains_iff, reduce, then_invoke, reduce-eq-foldl}
use clojure_rt.Vector.Transient.{persistent_bang}
use clojure_rt.Vector.Sharing.{promote_root, promote_vector, persistent_bang-throw}
use clojure_rt.Vector.Aliasing.{
  root_address, assoc-writes_shared_root, assoc-conj_writes_shared_tail,
}
use clojure_rt.Vector.Iterator.{seq}
use clojure_rt.Vector.Visit.{collect_seq, collect_seq-elements}

abbrev numbers : ℕ → ℕ → List RtValue
numbers zero x = []
numbers (suc n) x = x ∷ numbers n (suc x)

abbrev first_leaf : Leaf
first_leaf = record { address = 2; transient_id = persistent; array = numbers 32 0 }

abbrev last_leaf : Leaf
last_leaf = record { address = 3; transient_id = persistent; array = 32 ∷ [] }

abbrev thirty_three : Vector
thirty_three = record {
  address = 1;
  count = 33;
  shift = 0;
  transient_id = persistent;
  tail = last_leaf;
  root = some (leaf first_leaf);
  metadata = box_nil;
}

-- 64 elements, with a full tail: the next `conj` makes the trie grow.
abbrev sixty_four : Vector
sixty_four = record thirty_three {
  count = 64;
  tail = record { address = 3; transient_id = persistent; array = numbers 32 32 };
}

-- `Ptr_isReusable` never, always, and for the vector's own object alone.
abbrev never : ℕ → Bool
never a = false

abbrev always : ℕ → Bool
always a = true

abbrev only_vector : ℕ → Bool
only_vector zero = true
only_vector (suc zero) = true
only_vector (suc (suc a)) = false

thirty_three-IsValid : IsValid thirty_three
unfolding contents
thirty_three-IsValid = record {
  height = 0;
  level = refl;
  trie = (refl, tt);
  counted = refl;
  short = omega arith;
  started = λ h. omega arith;
  small = omega arith;
}

sixty_four-IsValid : IsValid sixty_four
unfolding contents
sixty_four-IsValid = record {
  height = 0;
  level = refl;
  trie = (refl, tt);
  counted = refl;
  short = omega arith;
  started = λ h. omega arith;
  small = omega arith;
}

conj-Yields_example : Yields (conj never sixty_four 64) (elements sixty_four ++ (64 ∷ []))
conj-Yields_example = conj-Yields never 64 sixty_four-IsValid (omega arith)

assoc-Yields_example :
    Yields (assoc never thirty_three 7 99) (assoc_list (elements thirty_three) 7 99)
assoc-Yields_example = assoc-Yields never 7 99 thirty_three-IsValid (omega arith) (omega arith)

pop-Yields_example : Yields (pop always thirty_three) (init (elements thirty_three))
pop-Yields_example = pop-Yields always thirty_three-IsValid (omega arith)

nth-checked_example : nth thirty_three 40 ≡ checked (get_elem? (elements thirty_three) 40) 40 33
nth-checked_example = nth-checked 40 thirty_three-IsValid

minus_one-is_int32 : is_int32 (box_int32 (negsuc 0)) ≡ true
unfolding is_int32 box_int32
minus_one-is_int32 = refl

minus_one-unbox_int32 : unbox_int32 (box_int32 (negsuc 0)) ≡ negsuc 0
unfolding unbox_int32 box_int32
minus_one-unbox_int32 = refl

-- The function at 7 has one method, for two arguments.
abbrev adder : Method
adder = record { index = 0; is_variadic = false; fixed_arity = 2; implementation = 64 }

abbrev one_function : RtValue → Option Function
one_function f =
    if f == 7
    then some (record { once = false; executed = false; max_arity = 2; methods = adder ∷ [] })
    else none

-- The sum of the elements.
abbrev add_to : RtValue → Method → ℕ → RtValue → Outcome ℕ
add_to f method acc x = ok (acc + x)

reduce-eq-foldl_example : reduce one_function add_to thirty_three 7 0 ≡ (
    method_for (one_function 7) 2 >>= λ method.
    foldl (then_invoke (add_to 7 method)) (ok 0) (elements thirty_three))
reduce-eq-foldl_example = reduce-eq-foldl one_function add_to thirty_three 7 0

not_a_function :
    reduce one_function add_to thirty_three 8 0 ≡ throw (illegal_argument "Not a function")
unfolding reduce method_for
not_a_function = refl

abbrev same_bits : RtValue → RtValue → Bool
same_bits a b = a == b

contains_iff_example : (contains same_bits thirty_three 32 ≡ true) ↔ (
    (i : ℕ) × (x : RtValue) × (get_elem? (elements thirty_three) i ≡ some x)
    × (same_bits x 32 ≡ true))
contains_iff_example = contains_iff same_bits thirty_three 32

-- A transient vector of one element, whose tail `conj!` has allocated.
abbrev one_transient : Vector
one_transient = record thirty_three {
  count = 1;
  transient_id = 9;
  root = none;
  tail = new_leaf 9 (4 ∷ []);
}

abbrev promote : RtValue → Outcome (Unit {0})
promote x = ok tt

nothing_to_promote : promote_root never promote none ≡ ok tt
nothing_to_promote = refl

persistent_bang-throw_example :
    ((persistent_bang one_transient).1.transient_id ≡ persistent)
    × (promote_vector never promote (persistent_bang one_transient).1
        ≡ throw (illegal_state "Cannot share a transient vector node"))
persistent_bang-throw_example =
    persistent_bang-throw never promote one_transient refl (omega arith) nothing_to_promote

-- A root with two leaves and the tail of one element.
abbrev two_leaves : Nodes
two_leaves =
    cons (leaf first_leaf)
      (cons (leaf (record first_leaf { address = 4; array = numbers 32 32 })) nil)

abbrev sixty_five : Vector
sixty_five = record thirty_three {
  count = 65;
  shift = 5;
  root = some (internal 5 persistent two_leaves);
}

assoc-writes_shared_root_example :
    (w : Vector) × (assoc only_vector sixty_five 7 99 ≡ ok w) × (root_address w.root ≡ 5)
assoc-writes_shared_root_example =
    assoc-writes_shared_root only_vector sixty_five 5 two_leaves 7 99 refl refl refl refl
      (omega arith) (omega arith)

assoc-conj_writes_shared_tail_example :
    (w u : Vector) × (assoc never thirty_three 7 99 ≡ ok w)
    × (conj only_vector w 33 ≡ ok u)
    × (u.tail.address ≡ 3)
    × (u.tail.array ≡ (32 ∷ []) ++ (33 ∷ []))
assoc-conj_writes_shared_tail_example =
    assoc-conj_writes_shared_tail never only_vector thirty_three (leaf first_leaf) 7 99 33 refl refl
      refl refl (omega arith) (omega arith) (omega arith)

collect_seq-elements_example :
    (seq thirty_three >>= collect_seq always (33 + 1)) ≡ ok (elements thirty_three)
collect_seq-elements_example = collect_seq-elements always thirty_three-IsValid
