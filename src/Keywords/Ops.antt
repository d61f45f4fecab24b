-- ===== src/Keywords/Ops.antt =====
-- `Keyword_create` of backend/runtime/Keyword.c on the two tables of keywords, run to its end before another call.
use clojure_rt.Base.{
  ℕ, ◌+◌, ◌%◌, ◌^◌, Bool, Option, some, if◌then◌else◌, not, Outcome, ok, throw, undefined,
}
use clojure_rt.Value.{RtValue, is_nil, box_keyword}
use clojure_rt.ConcurrentMap.Ops.{◌>>=◌, Node, get, assoc, dissoc, put_if_absent}

pub record Interned : Type 0 where
  pub keywords : Node
  pub keywords_inverted : Node
  pub min_unused_keyword : ℕ

module _ (equals : RtValue → RtValue → Bool) (hash : RtValue → ℕ) where
  -- What follows `putIfAbsent`.
  unfoldable pub keyword_result :
      (fuel : ℕ) → Interned → RtValue → Outcome RtValue × Node → Option (Outcome RtValue × Interned)
  keyword_result fuel k new (ok existing, u) =
      let k' = record k { keywords = u } in
      if not (is_nil existing)
      then (dissoc equals hash fuel k.keywords_inverted new >>= λ i.
          some (ok existing, record k' { keywords_inverted = i }))
      else some (ok new, k')
  keyword_result fuel k new (r, u) = some (r, record k { keywords = u })

  -- What follows the `assoc` of the new keyword.
  unfoldable pub intern_new :
      (fuel : ℕ)
      → Interned
      → (string new : RtValue) → Outcome (Unit {0}) × Node
      → Option (Outcome RtValue × Interned)
  intern_new fuel k string new (ok done, i) =
      put_if_absent equals hash fuel k.keywords string new
      >>= keyword_result fuel (record k { keywords_inverted = i }) new
  intern_new fuel k string new (throw e, i) = some (throw e, record k { keywords_inverted = i })
  intern_new fuel k string new (undefined, i) = some (undefined, record k { keywords_inverted = i })

  -- `string` is the value of the pointer to the string.
  unfoldable pub create_keyword :
      (fuel : ℕ) → Interned → RtValue → Option (Outcome RtValue × Interned)
  create_keyword fuel k string = get equals hash fuel k.keywords string >>= λ found.
      if is_nil found
      then (let new = box_keyword k.min_unused_keyword in
          let k' = record k { min_unused_keyword = (k.min_unused_keyword + 1) % 2 ^ 32 } in
          assoc equals hash fuel k.keywords_inverted new string >>= intern_new fuel k' string new)
      else some (ok found, k)
