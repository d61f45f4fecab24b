-- ===== src/Functions/Arguments.antt =====
-- The arguments of a variadic call (backend/runtime/Function.c).
use clojure_rt.Base.{
  Option, none, Outcome, ◌>>=◌, if◌then◌else◌, ℕ, ◌≡◌, ◌<◌, ◌-◌, ◌^◌, suc, zero, refl, ap, some,
  List, [], ◌∷◌, ◌++◌, length, take, drop, leb, false, ok, arith,
}
use clojure_rt.Value.{RtValue}
use clojure_rt.PersistentList.Ops.{Store, from_array}
use clojure_rt.PersistentList.Holds.{Holds, AllReal, from_array-Extends}

-- `RT_packVariadic`, which makes a list of the arguments after the fixed ones; `none` is nil.
unfoldable pub pack_variadic : (empty : ℕ) → Store → List RtValue → ℕ → Outcome (Store × Option ℕ)
pack_variadic empty s args fixed =
    if leb (length args) fixed
    then ok (s, none)
    else from_array empty s (drop fixed args) >>= λ r. ok (r.0, some r.1)

take-drop : (n : ℕ) (xs : List RtValue) → take n xs ++ drop n xs ≡ xs
take-drop zero xs = refl
take-drop (suc n) [] = refl
take-drop (suc n) (x ∷ xs) = ap (◌∷◌ x) (take-drop n xs)

length-drop : (n : ℕ) (xs : List RtValue) → length (drop n xs) ≡ length xs - n
length-drop zero xs = omega arith
length-drop (suc n) [] = omega arith
length-drop (suc n) (x ∷ xs) = omega (arith, length-drop n xs)

drop-AllReal : (n : ℕ) (xs : List RtValue) → AllReal xs → AllReal (drop n xs)
drop-AllReal zero xs h = h
drop-AllReal (suc n) [] h = h
drop-AllReal (suc n) (x ∷ xs) (h, hs) = drop-AllReal n xs hs

-- For an empty list at `empty` and fewer than 2 ^ 31 arguments that are not null, more than the fixed ones:
-- `RT_packVariadic` does not fault, and returns a list that is not empty and that, after the fixed arguments, gives all
-- arguments in their order.
pub pack_variadic-Holds :
    {s : Store} {empty : ℕ} (args : List RtValue) (fixed : ℕ)
    → Holds s empty empty []
    → AllReal args
    → length args < 2 ^ 31
    → fixed < length args
    → (t : Store) × (a : ℕ) × (rest : List RtValue) × (pack_variadic empty s args fixed
        ≡ ok (t, some a))
      × Holds t empty a rest
      × (length rest ≡ length args - fixed)
      × (take fixed args ++ rest ≡ args)
unfolding pack_variadic
pack_variadic-Holds {s} {empty} args fixed h real room more =
    let n = length-drop fixed args in
    let r =
      from_array-Extends (drop fixed args) h (drop-AllReal fixed args real) (omega (arith, n)) in
    let over : leb (length args) fixed ≡ false = ground arith in
    (r.store, r.address, drop fixed args, rw (over, r.runs) refl, r.holds, n, take-drop fixed args)
