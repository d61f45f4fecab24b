-- ===== src/Functions/Choice.antt =====
-- Which method of a function answers a call (backend/runtime/Function.c).
use clojure_rt.Base.{
  ℕ, ◌≡◌, ◌≤◌, ◌+◌, refl, Bool, true, false, none, some, List, [], ◌∷◌, leb, Outcome, ok, throw,
  wrong_arity, arith, Bool-cases, Option-cases, inl, inr,
}
use clojure_rt.Functions.Ops.{
  Method, Function, is_exact, takes_rest, is_variadic_method, find_method,
  valid_call_with_arg_count, extract_method,
}

-- A method is one of the list.
pub data In (m : Method) : List Method → Type 0 where
  here : {ms : List Method} → In m (m ∷ ms)
  there : {k : Method} {ms : List Method} → In m ms → In m (k ∷ ms)

-- No method passes the test.
abbrev pub NoneOf : (Method → Bool) → List Method → Type 0
NoneOf test ms = (m : Method) → In m ms → test m ≡ false

find_some :
    (test : Method → Bool) (ms : List Method) (m : Method)
    → find_method test ms ≡ some m
    → In m ms × (test m ≡ true)
unfolding find_method
find_some test [] m h = absurd (cc)
find_some test (k ∷ ms) m h = elim (Bool-cases (test k)) [
  | inl e ↦ let same : k ≡ m = some-inj (rw e at h) in rw (← same) (here, e)
  | inr n ↦ let (i, t) = find_some test ms m (rw n at h) in (there i, t)
]
  where
    some-inj : {a b : Method} → some a ≡ some b → a ≡ b
    some-inj q = cc

find_none : (test : Method → Bool) (ms : List Method) → find_method test ms ≡ none → NoneOf test ms
unfolding find_method
find_none test ms h m i = absent m ms i h
  where
    absent : (m : Method) (ms : List Method) → In m ms → find_method test ms ≡ none → test m ≡ false
    absent m [] i h = elim i [ ]
    absent m (k ∷ ms) here h = elim (Bool-cases (test m)) [
      | inl e ↦ absurd (let q : some m ≡ none = rw e at h in cc)
      | inr n ↦ n
    ]
    absent m (k ∷ ms) (there i) h = elim (Bool-cases (test k)) [
      | inl e ↦ absurd (let q : some k ≡ none = rw e at h in cc)
      | inr n ↦ absent m ms i (rw n at h)
    ]

-- A method without a rest argument for exactly `n` arguments.
abbrev pub Fits : ℕ → Method → Type 0
Fits n m = (m.is_variadic ≡ false) × (m.fixed_arity ≡ n)

-- A method with a rest argument whose other arguments are no more than `n`.
abbrev pub FitsRest : ℕ → Method → Type 0
FitsRest n m = (m.is_variadic ≡ true) × (m.fixed_arity ≤ n)

abbrev pub Nowhere : (Method → Type 0) → List Method → Type 0
Nowhere P ms = (m : Method) → In m ms → P m → ⊥

-- What a call with `n` arguments comes to.
pub data Chosen (ms : List Method) (n : ℕ) : Outcome Method → Type 0 where
  exact : (m : Method) → In m ms → Fits n m → Chosen ms n (ok m)
  rest : (m : Method) → In m ms → FitsRest n m → Nowhere (Fits n) ms → Chosen ms n (ok m)
  refused : Nowhere (Fits n) ms → Nowhere (FitsRest n) ms → Chosen ms n (throw (wrong_arity n))

is_exact-Fits : (n : ℕ) (m : Method) → is_exact n m ≡ true → Fits n m
is_exact-Fits n m h = (ground (arith, h), ground (arith, h))

takes_rest-FitsRest : (n : ℕ) (m : Method) → takes_rest n m ≡ true → FitsRest n m
takes_rest-FitsRest n m h = (ground (arith, h), ground (arith, h))

not_exact : (n : ℕ) (ms : List Method) → find_method (is_exact n) ms ≡ none → Nowhere (Fits n) ms
not_exact n ms e m i (v, a) = let no = find_none (is_exact n) ms e m i in ground (arith, no, v, a)

no_rest :
    (n : ℕ) (ms : List Method) → find_method (takes_rest n) ms ≡ none → Nowhere (FitsRest n) ms
no_rest n ms e m i (v, a) = let no = find_none (takes_rest n) ms e m i in ground (arith, no, v, a)

-- For any function and any number of arguments: `Function_extractMethod` returns a method without a rest argument
-- for that number, or else, where there is none, a method with a rest argument whose other arguments are no more;
-- it throws an arity exception only if the function has neither.
pub extract_method-Chosen :
    (self : Function) (n : ℕ) → Chosen self.methods n (extract_method self n)
unfolding extract_method
extract_method-Chosen self n = elim (Option-cases (find_method (is_exact n) self.methods)) [
  | inr (m, e) ↦
      let (i, t) = find_some (is_exact n) self.methods m e in rw e (exact m i (is_exact-Fits n m t))
  | inl e ↦ elim (Option-cases (find_method (takes_rest n) self.methods)) [
    | inr (m, f) ↦
        let (i, t) = find_some (takes_rest n) self.methods m f in
        rw (e, f) (rest m i (takes_rest-FitsRest n m t) (not_exact n self.methods e))
    | inl f ↦ rw (e, f) (refused (not_exact n self.methods e) (no_rest n self.methods f))
  ]
]

-- Where every method with a rest argument has at most one more argument before it than `maxArity`: for each number of
-- arguments that `Function_validCallWithArgCount` accepts, `Function_extractMethod` returns a method.
pub valid_call_with_arg_count-extract_method :
    (self : Function) (n : ℕ)
    → ((m : Method) → In m self.methods → m.is_variadic ≡ true → m.fixed_arity ≤ self.max_arity + 1)
    → valid_call_with_arg_count self n ≡ true
    → (m : Method) × (extract_method self n ≡ ok m)
unfolding valid_call_with_arg_count extract_method
valid_call_with_arg_count-extract_method self n small h =
    elim (Option-cases (find_method (is_exact n) self.methods)) [
      | inr (m, e) ↦ (m, rw e refl)
      | inl e ↦ elim (Bool-cases (leb n self.max_arity)) [
        | inl le ↦ absurd (let q : false ≡ true = rw (le, e) at h in cc)
        | inr gt ↦ elim (Option-cases (find_method is_variadic_method self.methods)) [
          | inl f ↦ absurd (let q : false ≡ true = rw (gt, f) at h in cc)
          | inr (m, f) ↦
              let (i, v) = find_some is_variadic_method self.methods m f in
              let fits : takes_rest n m ≡ true = ground (arith, small m i v, v, gt) in
              elim (Option-cases (find_method (takes_rest n) self.methods)) [
                | inl g ↦
                    absurd (
                      let q = find_none (takes_rest n) self.methods g m i in
                      ground (arith, q, fits))
                | inr (k, g) ↦ (k, rw (e, g) refl)
              ]
        ]
      ]
    ]
