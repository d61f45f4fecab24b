-- ===== src/Functions/Ops.antt =====
-- The operations of backend/runtime/Function.c that choose a method.
use clojure_rt.Base.{
  ℕ, ◌%◌, Bool, true, false, not, ◌&&◌, Option, none, some, List, [], ◌∷◌, set, ◌==◌, leb,
  if◌then◌else◌, Outcome, ok, throw, wrong_arity, illegal_argument,
}

-- `FunctionMethod`, without the values that it closes over. `implementation` is the address of the code.
pub record Method : Type 0 where
  pub index : ℕ
  pub is_variadic : Bool
  pub fixed_arity : ℕ
  pub implementation : ℕ

-- `ClojureFunction`: `methodCount` is the length of the list.
pub record Function : Type 0 where
  pub once : Bool
  pub executed : Bool
  pub max_arity : ℕ
  pub methods : List Method

-- `Function_fillMethod`: the fields are bytes.
unfoldable pub fill_method : Function → (position index fixed_arity : ℕ) → Bool → ℕ → Function
fill_method self position index fixed_arity is_variadic implementation = record self {
  methods = set self.methods position (record {
    index = index % 256;
    is_variadic = is_variadic;
    fixed_arity = fixed_arity % 256;
    implementation = implementation;
  });
}

abbrev pub is_exact : ℕ → Method → Bool
is_exact n m = not m.is_variadic && (m.fixed_arity == n)

abbrev pub takes_rest : ℕ → Method → Bool
takes_rest n m = m.is_variadic && leb m.fixed_arity n

abbrev pub is_variadic_method : Method → Bool
is_variadic_method m = m.is_variadic

-- The first method that passes a test: each of the loops over the methods.
unfoldable pub find_method : (Method → Bool) → List Method → Option Method
find_method test [] = none
find_method test (m ∷ ms) = if test m then some m else find_method test ms

-- `Function_validCallWithArgCount`
unfoldable pub valid_call_with_arg_count : Function → ℕ → Bool
valid_call_with_arg_count self n =
    if leb n self.max_arity
    then found (find_method (is_exact n) self.methods)
    else found (find_method is_variadic_method self.methods)
  where
    found : Option Method → Bool
    found none = false
    found (some m) = true

abbrev pub or_arity_exception : ℕ → Option Method → Outcome Method
or_arity_exception n none = throw (wrong_arity n)
or_arity_exception n (some m) = ok m

abbrev pub or_else : Option Method → Option Method → Option Method
or_else none other = other
or_else (some m) other = some m

-- `Function_extractMethod` of a function.
unfoldable pub extract_method : Function → ℕ → Outcome Method
extract_method self n =
    or_arity_exception n
      (or_else (find_method (is_exact n) self.methods) (find_method (takes_rest n) self.methods))

-- `Function_extractMethod` of a value, with the function that the value is, if it is one.
unfoldable pub method_for : Option Function → ℕ → Outcome Method
method_for none n = throw (illegal_argument "Not a function")
method_for (some self) n = extract_method self n
