-- ===== src/Tests/Calling.antt =====
-- Calls of functions of backend/runtime/Function.c with concrete numbers of arguments.
use clojure_rt.Base.{◌≤◌, ◌+◌, ◌≡◌, refl, true, false, [], ◌∷◌, List, ok, pos, none, arith}
use clojure_rt.Value.{RtValue, box_nil, box_null, is_null}
use clojure_rt.PersistentList.Ops.{Store}
use clojure_rt.Functions.Ops.{
  Method, Function, extract_method, valid_call_with_arg_count, find_method,
}
use clojure_rt.Functions.Choice.{
  Chosen, extract_method-Chosen, valid_call_with_arg_count-extract_method, In, here, there,
}

abbrev of_two : Method
of_two = record { index = 0; is_variadic = false; fixed_arity = 2; implementation = 64 }

abbrev of_three_or_more : Method
of_three_or_more = record { index = 1; is_variadic = true; fixed_arity = 3; implementation = 96 }

abbrev two_methods : Function
two_methods = record {
  once = false;
  executed = false;
  max_arity = 2;
  methods = of_two ∷ (of_three_or_more ∷ []);
}

extract_method-Chosen_example : Chosen two_methods.methods 5 (extract_method two_methods 5)
extract_method-Chosen_example = extract_method-Chosen two_methods 5

rest_after_three :
    (m : Method) → In m two_methods.methods → m.is_variadic ≡ true → m.fixed_arity ≤ 2 + 1
rest_after_three m here v = absurd (cc)
rest_after_three m (there here) v = omega arith
rest_after_three m (there (there i)) v = elim i [ ]

valid_call_with_arg_count-extract_method_example :
    (m : Method) × (extract_method two_methods 3 ≡ ok m)
unfolding valid_call_with_arg_count find_method
valid_call_with_arg_count-extract_method_example =
    valid_call_with_arg_count-extract_method two_methods 3 rest_after_three refl

abbrev no_cells : Store
no_cells = record { first = box_null; rest = none; count = pos 0; metadata = box_nil } ∷ []

abbrev five_six : List RtValue
five_six = 5 ∷ (6 ∷ [])

real : (is_null 5 ≡ false) × (is_null 6 ≡ false)
unfolding is_null
real = (refl, refl)
