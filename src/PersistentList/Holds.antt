-- ===== src/PersistentList/Holds.antt =====
-- The list that a cell of the store begins, and what the operations make of it.
use clojure_rt.Base.{
  Option, ◌>>=◌, ℕ, zero, suc, ◌+◌, ◌-◌, ◌<◌, ◌^◌, ◌≡◌, refl, sym, ◌∙◌, true, false, none, some,
  List, [], ◌∷◌, ◌++◌, length, get_elem?, get_elem?-append_left, get_elem?-append_right, ltb, arith,
  foldl, pos, Outcome, ok, >>=_congr,
}
use clojure_rt.Value.{RtValue, box_nil, box_null, is_null}
use clojure_rt.Vector.Fold.{reduce_array, then_invoke, foldl-reduce_array}
use clojure_rt.Functions.Ops.{Method, Function, method_for}
use clojure_rt.PersistentList.Ops.{
  Cell, Store, create, conj, count_of, first_of, next, pop, from_array, reduce_from, reduce,
}

-- The cells from an address on hold a list: the last is the empty list at `empty`, every other holds an
-- element that is not null, and each knows the length of its list. A cell is younger than its rest.
pub data Holds (s : Store) (empty : ℕ) : ℕ → List RtValue → Type 0 where
  end :
      (meta : RtValue)
      → get_elem? s empty
        ≡ some (record { first = box_null; rest = none; count = pos 0; metadata = meta })
      → Holds s empty empty []
  link :
      (a b : ℕ) (x : RtValue) (xs : List RtValue) (meta : RtValue)
      → get_elem? s a
        ≡ some (record { first = x; rest = some b; count = pos (suc (length xs)); metadata = meta })
      → is_null x ≡ false
      → b < a
      → Holds s empty b xs
      → Holds s empty a (x ∷ xs)

pub get_elem?-some-lt :
    {A : Type 0} (xs : List A) (i : ℕ) (x : A) → get_elem? xs i ≡ some x → i < length xs
get_elem?-some-lt [] i x h = cc
get_elem?-some-lt (y ∷ xs) zero x h = omega arith
get_elem?-some-lt (y ∷ xs) (suc i) x h = omega (arith, get_elem?-some-lt xs i x h)

kept :
    (s : Store) (new c : Cell) (a : ℕ)
    → get_elem? s a ≡ some c
    → get_elem? (s ++ (new ∷ [])) a ≡ some c
kept s new c a h = get_elem?-append_left s (new ∷ []) a (get_elem?-some-lt s a c h) ∙ h

-- An allocation changes no list that is there.
pub allocation-Holds :
    {s : Store} {empty a : ℕ} {xs : List RtValue} (new : Cell)
    → Holds s empty a xs
    → Holds (s ++ (new ∷ [])) empty a xs
allocation-Holds {s} {empty} new (end meta e) = end meta (kept s new _ empty e)
allocation-Holds {s} new (link a b x xs meta e real older h) =
    link a b x xs meta (kept s new _ a e) real older (allocation-Holds new h)

pub Holds-lt : {s : Store} {empty a : ℕ} {xs : List RtValue} → Holds s empty a xs → a < length s
Holds-lt {s} {empty} (end meta e) = get_elem?-some-lt s empty _ e
Holds-lt {s} (link a b x xs meta e real older h) = get_elem?-some-lt s a _ e

new_cell : (s : Store) (new : Cell) → get_elem? (s ++ (new ∷ [])) (length s) ≡ some new
new_cell s new =
    let z : length s - length s ≡ 0 = omega arith in
    get_elem?-append_right s (new ∷ []) (length s) (omega arith) ∙ rw z refl

pub is_null-box_null : is_null box_null ≡ true
unfolding is_null
is_null-box_null = refl

pub count_of-length :
    {s : Store} {empty a : ℕ} {xs : List RtValue}
    → Holds s empty a xs
    → count_of s a ≡ ok (pos (length xs))
unfolding count_of
count_of-length (end meta e) = rw e refl
count_of-length (link a b x xs meta e real older h) = rw e refl

-- A new list, and all lists of the store still there.
pub record Extends (s : Store) (empty : ℕ) (r : Outcome (Store × ℕ)) (xs : List RtValue)
    : Type 0 where
  pub store : Store
  pub address : ℕ
  pub runs : r ≡ ok (store, address)
  pub holds : Holds store empty address xs
  pub keeps : (c : ℕ) (ys : List RtValue) → Holds s empty c ys → Holds store empty c ys

-- For a list of fewer than 2 ^ 31 - 1 elements and an element that is not null: `conj` does not fault, returns
-- a list that begins with the element, and leaves every list of the store as it was.
pub conj-Extends :
    {s : Store} {empty a : ℕ} {xs : List RtValue} (x : RtValue)
    → Holds s empty a xs
    → is_null x ≡ false
    → length xs + 1 < 2 ^ 31
    → Extends s empty (conj s a x) (x ∷ xs)
unfolding conj create count_of
conj-Extends {s} {a = a} {xs = xs} x h real room =
    let fits : ltb (length xs + 1) (2 ^ 31) ≡ true = ground arith in
    let one : length xs + 1 ≡ suc (length xs) = omega arith in
    let new : Cell = record {
      first = x;
      rest = some a;
      count = pos (suc (length xs));
      metadata = box_nil;
    } in
    record {
      store = s ++ (new ∷ []);
      address = length s;
      runs = rw (count_of-length h, real, fits, one) refl;
      holds =
          link (length s) a x xs box_nil (new_cell s new) real (Holds-lt h)
            (allocation-Holds new h);
      keeps = λ c ys k. allocation-Holds new k;
    }

abbrev pub AllReal : List RtValue → Type 0
AllReal [] = Unit {0}
AllReal (x ∷ xs) = (is_null x ≡ false) × AllReal xs

-- For an empty list at `empty` and fewer than 2 ^ 31 elements that are not null: `from_array` does not fault,
-- returns the list of the elements in their order, and leaves every list of the store as it was.
pub from_array-Extends :
    {s : Store} {empty : ℕ} (xs : List RtValue)
    → Holds s empty empty []
    → AllReal xs
    → length xs < 2 ^ 31
    → Extends s empty (from_array empty s xs) xs
unfolding from_array
from_array-Extends {s} {empty} [] h real room = record {
  store = s;
  address = empty;
  runs = refl;
  holds = h;
  keeps = λ c ys k. k;
}
from_array-Extends {s} {empty} (x ∷ xs) h real room =
    let r = from_array-Extends xs h real.1 (omega (arith, room)) in
    let t = conj-Extends x r.holds real.0 (omega (arith, room)) in
    record {
      store = t.store;
      address = t.address;
      runs = rw r.runs t.runs;
      holds = t.holds;
      keeps = λ c ys k. t.keeps c ys (r.keeps c ys k);
    }

abbrev pub head_or_null : List RtValue → RtValue
head_or_null [] = box_null
head_or_null (x ∷ xs) = x

abbrev pub tail : List RtValue → List RtValue
tail [] = []
tail (x ∷ xs) = xs

-- For a list that ends at the empty list: `count` is the length, `first` the first element or null, and `pop`
-- the list without its first element.
pub reads-Holds :
    {s : Store} {empty a : ℕ} {xs : List RtValue}
    → Holds s empty a xs
    → (count_of s a ≡ ok (pos (length xs)))
      × (first_of s a ≡ ok (head_or_null xs))
      × ((b : ℕ) × (pop empty s a ≡ ok b) × Holds s empty b (tail xs))
unfolding first_of pop
reads-Holds {s} {empty} (end meta e) =
    (count_of-length (end meta e), rw e refl, (empty, rw e refl, end meta e))
reads-Holds (link a b x xs meta e real older h) =
    (count_of-length (link a b x xs meta e real older h), rw e refl, (b, rw e refl, h))

-- For a list that is not empty, one of a single element included, `next` is the list without the first element and
-- not nil.
pub next-Holds :
    {s : Store} {empty a : ℕ} {x : RtValue} {xs : List RtValue}
    → Holds s empty a (x ∷ xs)
    → (b : ℕ) × (next s a ≡ ok (some b)) × Holds s empty b xs
unfolding next
next-Holds (link a b x xs meta e real older h) = (b, rw e refl, h)

module _ {A : Type 0} (invoke : A → RtValue → Outcome A) where
  reduce_from-reduce_array :
      (fuel : ℕ) {s : Store} {empty a : ℕ} {xs : List RtValue} (acc : A)
      → Holds s empty a xs
      → a < fuel
      → reduce_from invoke fuel s (some a) acc ≡ reduce_array invoke xs acc
  unfolding reduce_from reduce_array
  reduce_from-reduce_array zero acc h enough = absurd (omega (arith, enough))
  reduce_from-reduce_array (suc fuel) acc (end meta e) enough = rw (e, is_null-box_null) refl
  reduce_from-reduce_array (suc fuel) acc (link a b x xs meta e real older h) enough =
      rw (e, real)
        (>>=_congr (invoke acc x) _ _
          (λ acc'. reduce_from-reduce_array fuel acc' h (omega (arith, older, enough))))

module _ {A : Type 0} (function_at : RtValue → Option Function)
    (invoke : RtValue → Method → A → RtValue → Outcome A) where
  -- For a list, `reduce` chooses a method of the value `f` for 2 arguments, and with that method is the left fold of
  -- its call over the elements in their order, which the first exception ends.
  pub reduce-foldl :
      {s : Store} {empty a : ℕ} {xs : List RtValue} (f : RtValue) (start : A)
      → Holds s empty a xs
      → reduce function_at invoke s a f start ≡ (
          method_for (function_at f) 2 >>= λ method.
          foldl (then_invoke (invoke f method)) (ok start) xs)
  unfolding reduce
  reduce-foldl {s} {xs = xs} f start h = >>=_congr (method_for (function_at f) 2) _ _ λ m.
      reduce_from-reduce_array (invoke f m) (suc (length s)) start h (omega (arith, Holds-lt h))
      ∙ sym (foldl-reduce_array (invoke f m) xs (ok start))
