-- ===== src/Tests/Binding.antt =====
-- Variables of backend/runtime/Var.c at concrete values.
use clojure_rt.Base.{ℕ, ◌≡◌, refl, Bool, true, Option, none, some, [], ◌∷◌, ◌==◌, ok, arith}
use clojure_rt.Value.{RtValue, box_nil}
use clojure_rt.ArrayMap.Ops.{ArrayMap}
use clojure_rt.ArrayMap.Lookup.{Equality}
use clojure_rt.ArrayMap.Refine.{IsValid}
use clojure_rt.Vars.Ops.{bind_map, or_root, binding, Var, deref}
use clojure_rt.Vars.Maps.{bind_map-deref, or_value}

abbrev word_equal : RtValue → RtValue → Bool
word_equal a b = a == b

word_equal-Equality : Equality word_equal
word_equal-Equality = record {
  same = λ a. ground arith;
  swap = λ a b h. ground arith;
  chain = λ a b c h k. ground arith;
}

abbrev dynamic_var : Var
dynamic_var = record { dynamic = true; rev = 0; root = 5; ns = none; sym = 1; metadata = box_nil }

abbrev all_dynamic : RtValue → Option Var
all_dynamic p = some dynamic_var

abbrev bound_map : ArrayMap
bound_map = record { address = 16; keys = 100 ∷ []; values = 7 ∷ []; metadata = box_nil }

bound_map-IsValid : IsValid word_equal bound_map
bound_map-IsValid = record { paired = refl; bounded = omega arith; distinct = (refl, tt) }

-- The map of the context is shared, and the one that `assoc` makes is not.
abbrev only_new : ℕ → Bool
only_new a = a == 0

abbrev new_bindings : ArrayMap
new_bindings = record {
  address = 0;
  keys = 200 ∷ (300 ∷ []);
  values = 8 ∷ (9 ∷ []);
  metadata = box_nil;
}

new_bindings-IsValid : IsValid word_equal new_bindings
new_bindings-IsValid = record {
  paired = refl;
  bounded = omega arith;
  distinct = (refl, (refl, tt));
}

bind_map-deref_example :
    (w : ArrayMap) × (bind_map word_equal only_new all_dynamic (some bound_map) new_bindings
      ≡ ok (some w))
    × IsValid word_equal w
    × (deref (some w) dynamic_var 100
        ≡ or_root
            (or_value (binding (some new_bindings) 100) (binding (some bound_map) 100))
            dynamic_var)
bind_map-deref_example =
    bind_map-deref word_equal word_equal-Equality only_new all_dynamic (some bound_map) new_bindings
      dynamic_var 100 (λ k. refl) refl bound_map-IsValid new_bindings-IsValid
      ((dynamic_var, refl, refl), ((dynamic_var, refl, refl), tt)) (omega arith)
