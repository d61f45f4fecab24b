-- ===== src/PersistentList/Reverse.antt =====
-- `createMany` and `reverse` of backend/runtime/PersistentList.c.
use clojure_rt.Base.{
  ℕ, zero, suc, ◌+◌, ◌≤◌, ◌<◌, ◌^◌, ◌≡◌, ◌≢◌, refl, sym, ap, ◌∙◌, Option, none, some, List, [], ◌∷◌,
  length, set, get_elem?, get_elem?-set_self, get_elem?-set_ne, length-set, arith, pos, to_int32,
  add_word, Outcome, ok,
}
use clojure_rt.Value.{RtValue, box_null}
use clojure_rt.PersistentList.Ops.{
  Cell, Store, count_of, first_of, next, turn_round, number, reverse, conj_arguments, create_many,
}
use clojure_rt.PersistentList.Holds.{
  Holds, end, link, conj-Extends, AllReal, get_elem?-some-lt, Holds-lt,
}

-- The pointers from an address on lead through ever younger cells.
pub data Rises (s : Store) : Option ℕ → Type 0 where
  top : Rises s none
  step :
      (a : ℕ) (c : Cell)
      → get_elem? s a ≡ some c
      → ((b : ℕ) → c.rest ≡ some b → a < b)
      → Rises s c.rest
      → Rises s (some a)

-- All the cells of a rising chain are younger than a bound.
abbrev pub Above : ℕ → Option ℕ → Type 0
Above a none = Unit {0}
Above a (some b) = a < b

set_other :
    (s : Store) (i j : ℕ) (c d : Cell)
    → get_elem? s j ≡ some c
    → i ≢ j
    → get_elem? (set s i d) j ≡ some c
set_other s i j c d e ne = get_elem?-set_ne s i j d ne ∙ e

Above-rest : (i a : ℕ) (p : Option ℕ) → ((b : ℕ) → p ≡ some b → a < b) → i ≤ a → Above i p
Above-rest i a none up h = tt
Above-rest i a (some b) up h = omega (arith, up b refl, h)

-- A write below a rising chain leaves it.
Rises-set :
    {s : Store} {p : Option ℕ} (i : ℕ) (d : Cell) → Rises s p → Above i p → Rises (set s i d) p
Rises-set i d top below = top
Rises-set {s} i d (step a c e up r) below =
    step a c (set_other s i a c d e (omega (arith, below))) up
      (Rises-set i d r (Above-rest i a c.rest up (omega (arith, below))))

-- A write above a list leaves it.
Holds-set :
    {s : Store} {empty a : ℕ} {xs : List RtValue} (i : ℕ) (d : Cell)
    → Holds s empty a xs
    → a < i
    → Holds (set s i d) empty a xs
Holds-set {s} {empty} i d (end meta e) above =
    end meta (set_other s i empty _ d e (omega (arith, above)))
Holds-set {s} i d (link a b x xs meta e real older h) above =
    link a b x xs meta (set_other s i a _ d e (omega (arith, above))) real older
      (Holds-set i d h (omega (arith, older, above)))

Above-all : (a : ℕ) (p : Option ℕ) → Above a p → (b : ℕ) → p ≡ some b → a < b
Above-all a none h b e = cc
Above-all a (some d) h b e = ground (arith, h)

-- What `turn_round` returns: the chain that begins at the empty list and rises. Another cell is behind
-- the empty list unless there was none.
record Turned (s : Store) (empty : ℕ) (prev : Option ℕ) (xs : List RtValue)
    (r : Outcome (Store × Option ℕ)) : Type 0 where
  store : Store
  runs : r ≡ ok (store, some empty)
  same_length : length store ≡ length s
  last : Cell
  found : get_elem? store empty ≡ some last
  null : last.first ≡ box_null
  chain : Rises store (some empty)
  behind : (prev ≡ none → 0 < length xs) → (b : ℕ) × (last.rest ≡ some b)

behind_empty : (prev : Option ℕ) → (prev ≡ none → 0 < 0) → (b : ℕ) × (prev ≡ some b)
behind_empty none h = absurd (omega (arith, h refl))
behind_empty (some b) h = (b, refl)

turn_round-Turned :
    (fuel : ℕ) {s : Store} {empty a : ℕ} {xs : List RtValue} (prev : Option ℕ)
    → Holds s empty a xs
    → Rises s prev
    → Above a prev
    → a + 1 < fuel
    → Turned s empty prev xs (turn_round fuel s prev (some a))
unfolding turn_round
turn_round-Turned zero prev h r above enough = absurd (omega (arith, enough))
turn_round-Turned (suc zero) prev h r above enough = absurd (omega (arith, enough))
turn_round-Turned (suc (suc fuel)) {s} {empty} prev (end meta e) r above enough =
    let c : Cell = record { first = box_null; rest = prev; count = pos 0; metadata = meta } in
    let found = get_elem?-set_self s empty c (get_elem?-some-lt s empty _ e) in
    record {
      store = set s empty c;
      runs = rw e refl;
      same_length = length-set s empty c;
      last = c;
      found = found;
      null = refl;
      chain = step empty c found (Above-all empty prev above) (Rises-set empty c r above);
      behind = λ some_left. behind_empty prev some_left;
    }
turn_round-Turned (suc (suc fuel)) {s} prev (link a b x xs meta e real older h) r above enough =
    let c : Cell = record {
      first = x;
      rest = prev;
      count = pos (suc (length xs));
      metadata = meta;
    } in
    let r' : Rises (set s a c) (some a) =
      step a c (get_elem?-set_self s a c (get_elem?-some-lt s a _ e)) (Above-all a prev above)
        (Rises-set a c r above) in
    let t =
      turn_round-Turned (suc fuel) (some a) (Holds-set a c h older) r' older
        (omega (arith, older, enough)) in
    record {
      store = t.store;
      runs = rw e t.runs;
      same_length = t.same_length ∙ length-set s a c;
      last = t.last;
      found = t.found;
      null = t.null;
      chain = t.chain;
      behind = λ h. t.behind (λ f. cc);
    }

-- The fuel for a rising chain in a store of a size.
abbrev pub Room : ℕ → Option ℕ → ℕ → Type 0
Room size none fuel = 0 < fuel
Room size (some a) fuel = size < fuel + a

Room-rest :
    (size a : ℕ) (p : Option ℕ) (fuel : ℕ)
    → a < size
    → ((b : ℕ) → p ≡ some b → a < b)
    → size < suc fuel + a
    → Room size p fuel
Room-rest size a none fuel inside up enough = omega (arith, inside, enough)
Room-rest size a (some b) fuel inside up enough = omega (arith, up b refl, enough)

-- `number` ends, and leaves the cells below the chain as they were.
record Numbered (s : Store) (p : Option ℕ) (r : Outcome Store) : Type 0 where
  store : Store
  runs : r ≡ ok store
  below : (i : ℕ) (c : Cell) → Above i p → get_elem? s i ≡ some c → get_elem? store i ≡ some c

number-Numbered :
    (fuel : ℕ) {s : Store} {p : Option ℕ} (n : ℕ)
    → Rises s p
    → Room (length s) p fuel
    → Numbered s p (number fuel s p n)
unfolding number
number-Numbered zero n top room = absurd (omega (arith, room))
number-Numbered zero {s} n (step a c e up r) room =
    let inside = get_elem?-some-lt s a c e in absurd (omega (arith, inside, room))
number-Numbered (suc fuel) {s} n top room = record {
  store = s;
  runs = refl;
  below = λ i c above e. e;
}
number-Numbered (suc fuel) {s} n (step a c e up r) room =
    let inside = get_elem?-some-lt s a c e in
    let d = record c { count = to_int32 n } in
    let same = length-set s a d in
    let rest = Above-rest a a c.rest up (omega arith) in
    let space = Room-rest (length s) a c.rest fuel inside up room in
    let t =
      number-Numbered fuel {s = set s a d} (add_word n 1) (Rises-set a d r rest) (rw same space) in
    record {
      store = t.store;
      runs = rw e t.runs;
      below = λ i c' above e'.
          t.below i c' (Above-rest i a c.rest up (omega (arith, above)))
            (set_other s a i c' d e' (omega (arith, above)));
    }

same_cell : (o : Option Cell) {c d : Cell} → o ≡ some c → o ≡ some d → c ≡ d
same_cell o {c = c} e f = ap (λ r. elim r [ none ↦ c | some x ↦ x ]) (sym e ∙ f)

-- The first cell of the chain has the first number.
number_first :
    (fuel : ℕ) {s : Store} {a : ℕ} (c : Cell) (n : ℕ)
    → get_elem? s a ≡ some c
    → Rises s (some a)
    → length s < suc fuel + a
    → (s' : Store) × (number (suc fuel) s (some a) n ≡ ok s')
      × (get_elem? s' a ≡ some (record c { count = to_int32 n }))
unfolding number
number_first fuel {s} c n e (step a c' e' up r) room =
    let q : c' ≡ c = same_cell (get_elem? s a) e' e in
    let inside = get_elem?-some-lt s a c' e' in
    let d = record c' { count = to_int32 n } in
    let space = Room-rest (length s) a c'.rest fuel inside up room in
    let same = length-set s a d in
    let t =
      number-Numbered fuel {s = set s a d} (add_word n 1)
        (Rises-set a d r (Above-rest a a c'.rest up (omega arith))) (rw same space) in
    (
      t.store,
      rw e' t.runs,
      rw (sym q)
          (t.below a d (Above-rest a a c'.rest up (omega arith)) (get_elem?-set_self s a d inside)),
    )

-- Conses one after the other make one list.
conj_arguments-Holds :
    (xs : List RtValue) {s : Store} {empty a : ℕ} {ys : List RtValue}
    → Holds s empty a ys
    → AllReal xs
    → length ys + length xs < 2 ^ 31
    → (s' : Store) × (b : ℕ) × (zs : List RtValue) × (conj_arguments s a xs ≡ ok (s', b))
      × Holds s' empty b zs
      × (length zs ≡ length ys + length xs)
unfolding conj_arguments
conj_arguments-Holds [] {s} {a = a} {ys = ys} h real room = (s, a, ys, refl, h, omega arith)
conj_arguments-Holds (x ∷ xs) {ys = ys} h real room =
    let t = conj-Extends x h real.0 (omega (arith, room)) in
    let (s', b, zs, runs, h', n) = conj_arguments-Holds xs t.holds real.1 (omega (arith, room)) in
    (s', b, zs, rw t.runs runs, h', omega (arith, n))

-- For an empty list at `empty` and one to 2 ^ 31 - 1 elements that are not null: `create_many` returns the
-- cell at `empty` itself, which then counts 0, has null for its first element, and has another cell behind it.
pub create_many-returns_empty :
    {s : Store} {empty : ℕ} (xs : List RtValue)
    → Holds s empty empty []
    → AllReal xs
    → 0 < length xs
    → length xs < 2 ^ 31
    → (s' : Store) × (create_many empty s xs ≡ ok (s', some empty))
      × (count_of s' empty ≡ ok (pos 0))
      × (first_of s' empty ≡ ok box_null)
      × ((b : ℕ) × (next s' empty ≡ ok (some b)))
unfolding create_many reverse count_of first_of next
create_many-returns_empty {s} {empty} xs h real some_left room =
    let (s1, a, zs, conjes, h1, n) = conj_arguments-Holds xs h real (omega (arith, room)) in
    let t = turn_round-Turned (suc (length s1)) none h1 top tt (omega (arith, Holds-lt h1)) in
    let (b, behind) = t.behind (λ _. omega (arith, n, some_left)) in
    let (s2, numbers, found) =
      number_first (length s1) t.last 0 t.found t.chain (omega (arith, t.same_length)) in
    (
      s2,
      rw (conjes, t.runs, numbers) refl,
      rw found refl,
      rw found (ap ok t.null),
      (b, rw found (ap ok behind)),
    )
