-- ===== src/Vars/Maps.antt =====
-- `RT_bind_map` of backend/runtime/ExecutionContext.c: the bindings of a whole map.
use clojure_rt.Base.{
  ℕ, ◌+◌, ◌≡◌, ◌≤◌, ◌∙◌, refl, Bool, true, Option, none, some, List, [], ◌∷◌, length, length-append,
  leb, ok, arith, inl, inr, Bool-cases, Option-cases,
}
use clojure_rt.Value.{RtValue}
use clojure_rt.ArrayMap.Ops.{ArrayMap, count, index_of, index_in, assoc, assoc_at}
use clojure_rt.ArrayMap.Lookup.{Equality, lookup, Distinct, lookup-absent, has_key_congr}
use clojure_rt.ArrayMap.Refine.{IsValid, value_of, assoc-value_of}
use clojure_rt.Vars.Ops.{Var, Context, deref, current_map, bind_map, bind_entries, or_root, binding}
use clojure_rt.Vars.Bindings.{IsIdentity, IsValidContext, current-IsValid, binding-value_of}

abbrev pub or_value : Option RtValue → Option RtValue → Option RtValue
or_value none other = other
or_value (some v) other = some v

module _ (equals : RtValue → RtValue → Bool) where
  -- An `assoc` makes a map longer by one at most.
  count-assoc :
      (sole : ℕ → Bool) (m w : ArrayMap) (key v : RtValue)
      → assoc equals sole m key v ≡ ok w
      → count w ≤ count m + 1
  unfolding assoc assoc_at index_of
  count-assoc sole m w key v h = elim (Option-cases (index_in equals m.keys key)) [
    | inl n ↦ elim (Bool-cases (leb 128 (count m))) [
      | inl full ↦ absurd (let q = rw (n, full) at h in cc)
      | inr room ↦
          let q = ok-inj (rw (n, room) at h) in
          rw (← q) (omega (arith, length-append m.keys (key ∷ [])))
    ]
    | inr (i, f) ↦ let q = ok-inj (rw f at h) in rw (← q) (omega arith)
  ]
    where
      ok-inj : {a b : ArrayMap} → ok a ≡ ok b → a ≡ b
      ok-inj q = cc

  -- Every key is a pointer to a dynamic variable.
  abbrev pub AllDynamic : (RtValue → Option Var) → List RtValue → Type 0
  AllDynamic var_at [] = Unit
  AllDynamic var_at (v ∷ vs) =
      ((var : Var) × (var_at v ≡ some var) × (var.dynamic ≡ true)) × AllDynamic var_at vs

  module _ (law : Equality equals) (sole : ℕ → Bool) (var_at : RtValue → Option Var) where
    bind_entries-value_of :
        (vs vals : List RtValue) (m : ArrayMap)
        → IsValid equals m
        → count m + length vs ≤ 128
        → length vs ≡ length vals
        → AllDynamic var_at vs
        → Distinct equals vs
        → (w : ArrayMap) × (bind_entries equals sole var_at vs vals m ≡ ok w)
          × IsValid equals w
          × ((key : RtValue)
              → value_of equals w key
                ≡ or_value (lookup equals vs vals key) (value_of equals m key))
    unfolding bind_entries
    bind_entries-value_of [] vals m valid room same dyn dist = (m, refl, valid, λ key. refl)
    bind_entries-value_of (v ∷ vs) [] m valid room same dyn dist = absurd (omega arith)
    bind_entries-value_of (v ∷ vs) (val ∷ vals) m valid room same ((var, at, d), dyn) (new, dist) =
        let (n, runs, valid_n, meta, values) =
          assoc-value_of equals law sole v val valid (inr (omega arith)) in
        let (w, rest, valid_w, all) =
          bind_entries-value_of vs vals n valid_n (omega (arith, count-assoc sole m n v val runs))
            (omega arith) dyn dist in
        (
          w,
          rw (at, d, runs) rest,
          valid_w,
          λ key. elim (Bool-cases (equals key v)) [
            | inl e ↦
                let none_left : lookup equals vs vals key ≡ none =
                  lookup-absent equals vs vals key (has_key_congr equals law key v vs e ∙ new) in
                rw (e, all key, none_left, values key, e) refl
            | inr n ↦ rw (n, all key, values key, n) refl
          ],
        )

    -- For a context whose bindings are a valid map, a valid map of new bindings whose keys are dynamic variables, room
    -- for all of both, any answers of `Ptr_isReusable`, and an `equals` that is an equivalence and the identity on the pointer of a dynamic variable:
    -- `RT_bind_map` returns a context with a valid map, in which that variable stands for its new binding, or else for
    -- its binding in the old context, or else for its root.
    pub bind_map-deref :
        (ctx : Context) (new : ArrayMap) (self : Var) (key : RtValue)
        → IsIdentity equals key
        → self.dynamic ≡ true
        → IsValidContext equals ctx
        → IsValid equals new
        → AllDynamic var_at new.keys
        → count (current_map equals ctx) + count new ≤ 128
        → (w : ArrayMap) × (bind_map equals sole var_at ctx new ≡ ok (some w))
          × IsValid equals w
          × (deref (some w) self key
              ≡ or_root (or_value (binding (some new) key) (binding ctx key)) self)
    unfolding bind_map deref
    bind_map-deref ctx new self key id d valid valid_new dyn room =
        let (w, runs, valid_w, all) =
          bind_entries-value_of new.keys new.values (current_map equals ctx)
            (current-IsValid equals ctx valid) room valid_new.paired dyn valid_new.distinct in
        (
          w,
          rw runs refl,
          valid_w,
          rw
              (
                d,
                binding-value_of equals (some w) key id,
                binding-value_of equals (some new) key id,
                binding-value_of equals ctx key id,
                all key,
              )
              refl,
        )
