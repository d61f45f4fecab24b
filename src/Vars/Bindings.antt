-- ===== src/Vars/Bindings.antt =====
-- What a variable stands for under the bindings of a context (backend/runtime/Var.c,
-- ExecutionContext.c).
use clojure_rt.Base.{
  ℕ, ◌≡◌, ◌<◌, ◌⊎◌, refl, Bool, true, false, Option, none, some, List, [], ◌∷◌, ◌==◌, if◌then◌else◌,
  ok, ◌&&◌, arith, inl, inr, Bool-cases, Option-cases,
}
use clojure_rt.Value.{RtValue}
use clojure_rt.ArrayMap.Ops.{ArrayMap, count, index_of, index_in}
use clojure_rt.ArrayMap.Lookup.{Equality, has_key, lookup, index_in-none, not_both}
use clojure_rt.ArrayMap.Refine.{IsValid, value_of, assoc-value_of}
use clojure_rt.Vars.Ops.{
  Var, Context, find_binding, binding, deref, current_map, set, set_bound, bind, bind_checked,
}
use clojure_rt.ArrayMap.Ops

module _ (equals : RtValue → RtValue → Bool) where
  -- `equals` tells the pointer from all other values, as `Var_equals` makes it do.
  abbrev pub IsIdentity : RtValue → Type 0
  IsIdentity key = (k : RtValue) → equals key k ≡ (key == k)

  -- The loop over the pointers finds the value of the key.
  find_binding-lookup :
      (ks vs : List RtValue) (key : RtValue)
      → IsIdentity key
      → find_binding ks vs key ≡ lookup equals ks vs key
  unfolding find_binding
  find_binding-lookup [] vs key h = refl
  find_binding-lookup (k ∷ ks) [] key h = refl
  find_binding-lookup (k ∷ ks) (v ∷ vs) key h = rw (h k, find_binding-lookup ks vs key h) refl

  abbrev pub IsValidContext : Context → Type 0
  IsValidContext none = Unit
  IsValidContext (some m) = IsValid equals m

  empty-IsValid : IsValid equals Ops.create
  unfolding Ops.create
  empty-IsValid = record { paired = refl; bounded = omega arith; distinct = tt }

  pub current-IsValid :
      (ctx : Context) → IsValidContext ctx → IsValid equals (current_map equals ctx)
  current-IsValid none h = empty-IsValid
  current-IsValid (some m) h = h

  pub binding-value_of :
      (ctx : Context) (key : RtValue)
      → IsIdentity key
      → binding ctx key ≡ value_of equals (current_map equals ctx) key
  unfolding Ops.create
  binding-value_of none key h = refl
  binding-value_of (some m) key h = find_binding-lookup m.keys m.values key h

  module _ (law : Equality equals) where
    -- A map with one more binding.
    deref_assoc :
        (ctx : Context) (w : ArrayMap) (v val : RtValue)
        → ((key : RtValue)
            → value_of equals w key
              ≡ (if equals key v then some val else value_of equals (current_map equals ctx) key))
        → (self : Var) (key : RtValue) → IsIdentity key
        → deref (some w) self key ≡ (if self.dynamic && (key == v) then val else deref ctx self key)
    unfolding deref
    deref_assoc ctx w v val h self key id =
        let b = binding-value_of (some w) key id in
        let c = binding-value_of ctx key id in
        elim (Bool-cases self.dynamic) [
          | inr n ↦ rw n refl
          | inl d ↦ elim (Bool-cases (key == v)) [
            | inl e ↦ rw (d, b, h key, id v, e) refl
            | inr n ↦ rw (d, b, h key, id v, n, c) refl
          ]
        ]

    -- For a context whose bindings are a valid map, with the variable bound or with room for one
    -- more, and an `equals` that is an equivalence and the identity on the pointer of the other
    -- variable: `RT_bind` of a dynamic variable returns a context with a valid map, in which that
    -- variable stands for the value, and the other variable, if it is another, for what it stood
    -- for.
    pub bind-deref :
        (sole : ℕ → Bool) (var_at : RtValue → Option Var) (ctx : Context) (v val : RtValue)
        (var self : Var) (key : RtValue)
        → IsIdentity key
        → var_at v ≡ some var
        → var.dynamic ≡ true
        → IsValidContext ctx
        → (has_key equals v (current_map equals ctx).keys ≡ true)
          ⊎ (count (current_map equals ctx) < 128)
        → (w : ArrayMap) × (bind equals sole var_at ctx v val ≡ ok (some w))
          × IsValid equals w
          × (deref (some w) self key
              ≡ (if self.dynamic && (key == v) then val else deref ctx self key))
    unfolding bind bind_checked
    bind-deref sole var_at ctx v val var self key id at dyn valid room =
        let (w, runs, ok_w, meta, values) =
          assoc-value_of equals law sole v val (current-IsValid ctx valid) room in
        (w, rw (at, dyn, runs) refl, ok_w, deref_assoc ctx w v val values self key id)

    -- For a context whose bindings are a valid map that binds the variable, and an `equals` that is
    -- an equivalence and the identity on the pointer of the other variable: `Var_set` of a dynamic
    -- variable returns the value and a context with a valid map, in which the variable stands for
    -- the value, and the other variable, if it is another, for what it stood for.
    pub set-deref :
        (m : ArrayMap) (var self : Var) (v val key : RtValue)
        → IsIdentity key
        → var.dynamic ≡ true
        → IsValid equals m
        → has_key equals v m.keys ≡ true
        → (w : ArrayMap) × (set equals (some m) var v val ≡ ok (some w, val))
          × IsValid equals w
          × (deref (some w) self key
              ≡ (if self.dynamic && (key == v) then val else deref (some m) self key))
    unfolding set set_bound index_of
    set-deref m var self v val key id dyn valid bound =
        let (w, runs, ok_w, meta, values) =
          assoc-value_of equals law (λ a. false) v val valid (inl bound) in
        elim (Option-cases (index_in equals m.keys v)) [
          | inl n ↦ absurd (not_both (index_in-none equals m.keys v n) bound)
          | inr (i, found) ↦
              (w, rw (dyn, found, runs) refl, ok_w, deref_assoc (some m) w v val values self key id)
        ]
