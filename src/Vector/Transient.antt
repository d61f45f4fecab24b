-- ===== src/Vector/Transient.antt =====
-- Transients and metadata (backend/runtime/PersistentVector.c).
use clojure_rt.Base.{ℕ, ◌+◌, ◌≡◌, ◌%◌, ◌^◌, refl, Bool, ◌==◌, if◌then◌else◌, Bool-cases, inl, inr}
use clojure_rt.Value.{RtValue}
use clojure_rt.Vector.Node.{fresh}
use clojure_rt.Vector.Ops.{Vector, persistent, get_transient_id}
use clojure_rt.Vector.Valid.{elements, IsValid}

-- `PersistentVector_copy_root`: the argument after the call and the new vector. The new tail takes the
-- transient ID of the old one along, since `memcpy` overwrites the field that `allocate` has set.
unfoldable pub copy_root : Vector → ℕ → Vector × Vector
copy_root v transient_id = (
  (if transient_id == persistent then record v { transient_id = persistent } else v),
  record v {
    address = fresh;
    transient_id = transient_id;
    tail = record (v.tail) { address = fresh };
  },
)

-- `PersistentVector_transient`, with the counter of transient IDs before and after.
unfoldable pub transient : ℕ → Vector → Vector × ℕ
unfolding copy_root
transient counter v =
    let (id, counter') = get_transient_id counter in ((copy_root v id).1, counter')

-- `PersistentVector_persistent_BANG_`
unfoldable pub persistent_bang : Vector → Vector × Vector
unfolding copy_root
persistent_bang v = copy_root v persistent

-- `PersistentVector_withMeta`
unfoldable pub with_meta : (sole : ℕ → Bool) → Vector → RtValue → Vector
unfolding copy_root
with_meta sole v meta =
    if sole v.address
    then record v { metadata = meta }
    else record ((copy_root v persistent).1) { metadata = meta }

copy_root-IsValid : {v : Vector} (id : ℕ) → IsValid v → IsValid (copy_root v id).1
unfolding copy_root
copy_root-IsValid id i = record {
  height = i.height;
  level = i.level;
  trie = i.trie;
  counted = i.counted;
  short = i.short;
  started = i.started;
  small = i.small;
}

metadata-IsValid :
    {v : Vector} (meta : RtValue) → IsValid v → IsValid (record v { metadata = meta })
metadata-IsValid meta i = record {
  height = i.height;
  level = i.level;
  trie = i.trie;
  counted = i.counted;
  short = i.short;
  started = i.started;
  small = i.small;
}

-- For a valid vector and any counter: `transient` takes the next ID and leaves a valid vector of the same
-- elements that carries it, and `persistent!` of that vector is valid, persistent and has the same
-- elements, as has the argument that it marks persistent.
pub transient-persistent_bang :
    (counter : ℕ) {v : Vector}
    → IsValid v
    → let (t, next) = transient counter v in
      let (t', p) = persistent_bang t in
      (t.transient_id ≡ counter)
      × (next ≡ (counter + 1) % 2 ^ 64)
      × IsValid t
      × (elements t ≡ elements v)
      × IsValid p
      × (elements p ≡ elements v)
      × (p.transient_id ≡ persistent)
      × (t'.transient_id ≡ persistent)
unfolding transient persistent_bang get_transient_id
transient-persistent_bang counter {v} i =
    let t = copy_root-IsValid counter i in
    (refl, refl, t, refl, copy_root-IsValid persistent t, refl, refl, refl)

-- For a valid vector and any answer of `Ptr_isReusable`, `with_meta` sets the metadata and keeps the
-- elements and the validity.
pub with_meta_lem :
    (sole : ℕ → Bool) {v : Vector} (meta : RtValue)
    → IsValid v
    → ((with_meta sole v meta).metadata ≡ meta)
      × (elements (with_meta sole v meta) ≡ elements v)
      × IsValid (with_meta sole v meta)
unfolding with_meta
with_meta_lem sole {v} meta i = elim (Bool-cases (sole v.address)) [
  | inl e ↦ rw e (refl, refl, metadata-IsValid meta i)
  | inr e ↦ rw e (refl, refl, metadata-IsValid meta (copy_root-IsValid persistent i))
]
