-- ===== src/Counts/System.antt =====
-- The reference count of one object of backend/runtime/Object.h and the threads that use it, in any order.
--
-- The lowest bit of the count says that the object is shared, and the rest is twice the number of references. Each
-- load, store and read-modify-write of the count is one step. The field `refs` is not in the code: the thread that has
-- each reference. A reference takes memory, so there are fewer than 2 ^ 63.
use clojure_rt.Base.{
  has, update, ℕ, ◌+◌, ◌/◌, ◌%◌, ◌^◌, ◌<◌, ◌≡◌, ◌≢◌, Bool, true, false, List, [], ◌∷◌, ◌==◌,
  if◌then◌else◌, length, add_word, sub_word,
}

-- `SHARED_BIT`
abbrev pub shared_bit : ℕ
shared_bit = 1

-- `COUNT_INC`
abbrev pub count_inc : ℕ
count_inc = 2

abbrev pub IsShared : ℕ → Type 0
IsShared count = count % 2 ≡ shared_bit

abbrev pub IsLocal : ℕ → Type 0
IsLocal count = count % 2 ≡ 0

-- The list without the first `i`.
abbrev pub remove : ℕ → List ℕ → List ℕ
remove i [] = []
remove i (j ∷ js) = let rest = remove i js in if i == j then js else j ∷ rest

-- Where a thread stands, with the count that it loaded.
pub data Pc : Type 0 where
  idle : Pc
  retaining : (current : ℕ) → Pc
  releasing : (current : ℕ) → Pc
  reusing : Pc  -- before the store of `Object_isReusable`
  promoting : (current : ℕ) → Pc

pub record State : Type 0 where
  pub count : ℕ
  pub destroyed : Bool
  pub refs : List ℕ
  pub pc : ℕ → Pc

abbrev pub at : State → ℕ → Pc → State
at s i p = record s { pc = update s.pc i p }

-- `Object_create` by thread `i`.
abbrev pub create : ℕ → State
create i = record { count = count_inc; destroyed = false; refs = i ∷ []; pc = λ j. idle }

abbrev pub gain : State → ℕ → ℕ → State
gain s i count = record s { count = count; refs = i ∷ s.refs; pc = update s.pc i idle }

abbrev pub lose : State → ℕ → ℕ → State
lose s i count = record s { count = count; refs = remove i s.refs; pc = update s.pc i idle }

-- `Object_retain`, by a thread that has a reference.
pub data Retain (s : State) (i : ℕ) : State → Type 0 where
  load : s.pc i ≡ idle → has i s.refs ≡ true → Retain s i (at s i (retaining s.count))
  store :
      {c : ℕ}
      → s.pc i ≡ retaining c
      → IsLocal c
      → length s.refs + 1 < 2 ^ 63
      → Retain s i (gain s i (add_word c count_inc))
  fetch_add :
      {c : ℕ}
      → s.pc i ≡ retaining c
      → IsShared c
      → length s.refs + 1 < 2 ^ 63
      → Retain s i (gain s i (add_word s.count count_inc))

-- `Object_release_internal`, by a thread that has a reference.
pub data Release (s : State) (i : ℕ) : State → Type 0 where
  load : s.pc i ≡ idle → has i s.refs ≡ true → Release s i (at s i (releasing s.count))
  destroy_local :
      {c : ℕ}
      → s.pc i ≡ releasing c
      → IsLocal c
      → sub_word c count_inc / 2 ≡ 0
      → Release s i (record (lose s i s.count) { destroyed = true })
  store :
      {c : ℕ}
      → s.pc i ≡ releasing c
      → IsLocal c
      → sub_word c count_inc / 2 ≢ 0
      → Release s i (lose s i (sub_word c count_inc))
  destroy_shared :
      {c : ℕ}
      → s.pc i ≡ releasing c
      → IsShared c
      → s.count / 2 ≡ 1
      → Release s i (record (lose s i (sub_word s.count count_inc)) { destroyed = true })
  fetch_sub :
      {c : ℕ}
      → s.pc i ≡ releasing c
      → IsShared c
      → s.count / 2 ≢ 1
      → Release s i (lose s i (sub_word s.count count_inc))

-- What `Object_isReusable` answers.
abbrev pub is_reusable : ℕ → Bool
is_reusable count = (count / 2) == 1

-- `Object_isReusable` where it stores: the object was shared, and the caller has the only reference. The other
-- cases only load the count.
pub data Reuse (s : State) (i : ℕ) : State → Type 0 where
  load :
      s.pc i ≡ idle
      → has i s.refs ≡ true
      → is_reusable s.count ≡ true
      → IsShared s.count
      → Reuse s i (at s i reusing)
  store : s.pc i ≡ reusing → Reuse s i (record (at s i idle) { count = count_inc })

-- `Object_promoteToShared` of an object without children, with `Object_promoteToSharedShallow`.
pub data Promote (s : State) (i : ℕ) : State → Type 0 where
  load : s.pc i ≡ idle → has i s.refs ≡ true → Promote s i (at s i (promoting s.count))
  skip : {c : ℕ} → s.pc i ≡ promoting c → IsShared c → Promote s i (at s i idle)
  store :
      {c : ℕ}
      → s.pc i ≡ promoting c
      → IsLocal c
      → Promote s i (record (at s i idle) { count = c + shared_bit })

pub data Step (s : State) : State → Type 0 where
  retain : {t : State} (i : ℕ) → Retain s i t → Step s t
  release : {t : State} (i : ℕ) → Release s i t → Step s t
  reuse : {t : State} (i : ℕ) → Reuse s i t → Step s t
  promote : {t : State} (i : ℕ) → Promote s i t → Step s t
  -- A thread gives a reference to another one: only a shared object goes from thread to thread.
  give :
      (i j : ℕ)
      → s.pc i ≡ idle
      → has i s.refs ≡ true
      → IsShared s.count
      → Step s (record s { refs = j ∷ remove i s.refs })

pub data Reach (owner : ℕ) : State → Type 0 where
  first : Reach owner (create owner)
  later : {s t : State} → Reach owner s → Step s t → Reach owner t
