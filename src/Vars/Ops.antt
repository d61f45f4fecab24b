-- ===== src/Vars/Ops.antt =====
-- The operations of backend/runtime/Var.c and ExecutionContext.c.
--
-- A context is its bindings: NULL and a context whose map is nil are the same to all functions, and are `none`.
-- A variable is known by the pointer to it, its key in a map. The functions retain a map before they give it to
-- `PersistentArrayMap_assoc`, so it is never the only owner's.
use clojure_rt.Base.{
  ℕ, Bool, false, not, Option, none, some, List, [], ◌∷◌, ◌==◌, if◌then◌else◌, Outcome, ok, throw,
  ◌>>=◌, illegal_argument, illegal_state, add_word,
}
use clojure_rt.Value.{RtValue, box_nil, box_null}
use clojure_rt.ArrayMap.Ops.{ArrayMap, is_array_map, index_of}
use clojure_rt.ArrayMap.Ops

pub record Var : Type 0 where
  pub dynamic : Bool
  pub rev : ℕ
  pub root : RtValue
  pub ns : Option ℕ
  pub sym : ℕ
  pub metadata : RtValue

abbrev pub Context : Type 0
Context = Option ArrayMap

-- `Var_create` and `Var_create_interned`
unfoldable pub create : ℕ → Var
create sym = record {
  dynamic = false;
  rev = 0;
  root = box_null;
  ns = none;
  sym = sym;
  metadata = box_nil;
}

unfoldable pub create_interned : ℕ → ℕ → Var
create_interned ns sym = record {
  dynamic = false;
  rev = 0;
  root = box_null;
  ns = some ns;
  sym = sym;
  metadata = box_nil;
}

-- `Var_setDynamic`
unfoldable pub set_dynamic : Var → Bool → Var
set_dynamic self dynamic = record self { dynamic = dynamic }

-- `Var_hasRoot`
unfoldable pub has_root : Var → Bool
has_root self = not (self.root == box_null)

-- `Var_bindRoot`
unfoldable pub bind_root : Var → RtValue → Var
bind_root self object = record self { root = object; rev = add_word self.rev 1 }

-- `Var_unbindRoot`
unfoldable pub unbind_root : Var → Var
unbind_root self = record self { root = box_null; rev = add_word self.rev 1 }

-- The loop of `Var_deref` over the bindings, which compares pointers.
unfoldable pub find_binding : List RtValue → List RtValue → RtValue → Option RtValue
find_binding [] vs key = none
find_binding (k ∷ ks) [] key = none
find_binding (k ∷ ks) (v ∷ vs) key = if key == k then some v else find_binding ks vs key

abbrev pub binding : Context → RtValue → Option RtValue
binding none key = none
binding (some m) key = find_binding m.keys m.values key

abbrev pub or_root : Option RtValue → Var → RtValue
or_root none self = self.root
or_root (some v) self = v

-- `Var_deref` and `Var_peek` of the variable `self`, whose pointer is `key`.
unfoldable pub deref : Context → Var → RtValue → RtValue
deref ctx self key = if self.dynamic then or_root (binding ctx key) self else self.root

-- `ExecutionContext_create`, on a map.
abbrev pub context : ArrayMap → Outcome Context
context m = ok (some m)

module _ (equals : RtValue → RtValue → Bool) where
  -- `PersistentArrayMap_assoc` on a map that has another owner.
  abbrev pub assoc_shared : ArrayMap → RtValue → RtValue → Outcome ArrayMap
  assoc_shared m key value = Ops.assoc equals (λ a. false) m key value

  abbrev pub current_map : Context → ArrayMap
  current_map none = Ops.create
  current_map (some m) = m

  -- `Var_set`
  unfoldable pub set_bound : ArrayMap → RtValue → RtValue → Option ℕ → Outcome (Context × RtValue)
  set_bound m key value none = throw (illegal_state "Can't set!: Var has no thread-local binding")
  set_bound m key value (some i) = assoc_shared m key value >>= λ w. ok (some w, value)

  unfoldable pub set : Context → Var → RtValue → RtValue → Outcome (Context × RtValue)
  set none self key value =
      if not self.dynamic
      then throw (illegal_state "Can't set! a non-dynamic Var")
      else throw (illegal_state "Can't set! dynamic Var outside of a binding context")
  set (some m) self key value =
      if not self.dynamic
      then throw (illegal_state "Can't set! a non-dynamic Var")
      else set_bound m key value (index_of equals m key)

  -- The answers of `Ptr_isReusable` on the map, which has no other owner from the second turn of the loop of
  -- `RT_bind_map` on, and the variable at a pointer, if there is one.
  module _ (sole : ℕ → Bool) (var_at : RtValue → Option Var) where
    unfoldable pub bind_checked : Option Var → ArrayMap → RtValue → RtValue → Outcome ArrayMap
    bind_checked none m v val = throw (illegal_argument "First argument to RT_bind must be a Var")
    bind_checked (some var) m v val =
        if not var.dynamic
        then throw (illegal_state "Can't dynamically bind non-dynamic Var")
        else Ops.assoc equals sole m v val

    -- `RT_bind`
    unfoldable pub bind : Context → RtValue → RtValue → Outcome Context
    bind ctx v val = bind_checked (var_at v) (current_map ctx) v val >>= context

    -- The loop of `RT_bind_map`.
    unfoldable pub bind_entries : List RtValue → List RtValue → ArrayMap → Outcome ArrayMap
    bind_entries [] vals m = ok m
    bind_entries (v ∷ vs) [] m = ok m
    bind_entries (v ∷ vs) (val ∷ vals) m = bind_entry (var_at v) v val m >>= bind_entries vs vals
      where
        bind_entry : Option Var → RtValue → RtValue → ArrayMap → Outcome ArrayMap
        bind_entry none v val m = throw (illegal_argument "Binding keys must be Vars")
        bind_entry (some var) v val m =
            if not var.dynamic
            then throw (illegal_state "Can't dynamically bind non-dynamic Var")
            else Ops.assoc equals sole m v val

    -- `RT_bind_map`, on a map.
    unfoldable pub bind_map : Context → ArrayMap → Outcome Context
    bind_map ctx new = bind_entries new.keys new.values (current_map ctx) >>= context
