-- ===== src/ConcurrentMap/Ops.antt =====
-- The operations of backend/runtime/ConcurrentHashMap.c, each run to its end before the next.
--
-- In such a run a compare-and-exchange that follows its load succeeds, and a loop that waits for
-- another thread never ends: the result is `none`, as it is where the fuel runs out.
use clojure_rt.Base.{
  ℕ, zero, suc, ◌+◌, ◌%◌, ◌^◌, Bool, true, false, Option, none, some, ltb, ◌==◌, not, if◌then◌else◌,
  add_word, sub_word, update, Outcome, ok, throw, illegal_state, min,
}
use Prim.Native.Nat.{bit_xor}
use clojure_rt.Value.{RtValue, box_nil, box_null, is_null, is_nil}

infixl 5 ◌>>=◌
abbrev pub ◌>>=◌ {ℓ κ} : {A : Type ℓ} {B : Type κ} → Option A → (A → Option B) → Option B
none >>= f = none
some a >>= f = f a

pub record Entry : Type 0 where
  pub key : RtValue
  pub value : RtValue
  pub key_hash : ℕ
  pub short_leap : ℕ
  pub long_leap : ℕ

-- `sizeMask` is `size` - 1, and `size` a power of two: `idx & sizeMask` is `idx % size`. `next`,
-- `migrationIndex` and `count` are set by `create` and not read.
pub record Node : Type 0 where
  pub size : ℕ
  pub resizing_threshold : ℕ
  pub entries : ℕ → Entry

abbrev pub slot : Node → ℕ → ℕ
slot t idx = idx % t.size

abbrev pub entry_at : Node → ℕ → Entry
entry_at t idx = t.entries (slot t idx)

abbrev pub set_entry : Node → ℕ → Entry → Node
set_entry t idx e = record t { entries = update t.entries (slot t idx) e }

abbrev pub empty_entry : Entry
empty_entry = record {
  key = box_null;
  value = box_null;
  key_hash = 0;
  short_leap = 0;
  long_leap = 0;
}

-- `rounded_power n` is `round(pow(n, 0.33))`.
unfoldable pub create : (ℕ → ℕ) → ℕ → Node
create rounded_power exponent =
    let initial_size = 2 ^ exponent in
    record {
      size = initial_size;
      resizing_threshold = min (rounded_power initial_size) 128;
      entries = λ i. empty_entry;
    }

abbrev pub leap : Bool → Entry → ℕ
leap use_short_leap e = if use_short_leap then e.short_leap else e.long_leap

abbrev pub set_leap : Bool → ℕ → Entry → Entry
set_leap true d e = record e { short_leap = d }
set_leap false d e = record e { long_leap = d }

-- A store to the link of a cell, which is an `unsigned char`.
unfoldable pub store_link : Bool → ℕ → ℕ → Node → Node
store_link use_short_leap idx desired_delta t =
    set_entry t idx (set_leap use_short_leap (desired_delta % 256) (entry_at t idx))

-- The exchange of a hash of 0 for that of the key.
unfoldable pub claim : ℕ → ℕ → Node → Node
claim key_hash idx t = set_entry t idx (record (entry_at t idx) { key_hash = key_hash })

unfoldable pub store_value : ℕ → RtValue → Node → Node
store_value idx v t = set_entry t idx (record (entry_at t idx) { value = v })

unfoldable pub store_new : ℕ → RtValue → RtValue → Node → Node
store_new idx key v t = set_entry t idx (record (entry_at t idx) { key = key; value = v })

-- The result of `insertOrFind`, with the index of the cell or of the overflow.
pub data InsertResult : Type 0 where
  already_found : ℕ → InsertResult
  inserted_new : ℕ → InsertResult
  overflow : ℕ → InsertResult

-- What ends the linear search: the key, an empty cell, another cell of the bucket, or the limit.
pub data Probe : Type 0 where
  at_key : ℕ → Probe
  at_empty : ℕ → Probe
  at_bucket : ℕ → Probe
  at_limit : ℕ → Probe

-- One turn of the loop: an end, or the next cell of the chain.
pub data Turn : Type 0 where
  done : InsertResult → Node → Turn
  go_on : ℕ → Node → Turn

unfoldable pub hash_of_key : (RtValue → ℕ) → RtValue → ℕ
hash_of_key hash key = if hash key == 0 then 1 else hash key

unfoldable pub after_probe : Bool → ℕ → ℕ → Node → Probe → Turn
after_probe use_short_leap key_hash idx t (at_key i) = done (already_found i) t
after_probe use_short_leap key_hash idx t (at_empty i) =
    done (inserted_new i) (store_link use_short_leap idx (sub_word i idx) (claim key_hash i t))
after_probe use_short_leap key_hash idx t (at_bucket i) =
    go_on i (store_link use_short_leap idx (sub_word i idx) t)
after_probe use_short_leap key_hash idx t (at_limit i) = done (overflow i) t

-- The switch of `assoc` on the result of `insertOrFind`.
unfoldable pub assoc_result : RtValue → RtValue → InsertResult × Node → Outcome (Unit {0}) × Node
assoc_result key v (already_found i, t) = (ok tt, store_value i v t)
assoc_result key v (inserted_new i, t) = (ok tt, store_new i key v t)
assoc_result key v (overflow i, t) =
    (throw (illegal_state "ConcurrentHashMap_assoc - overcrowded - resizing not yet supported"), t)

-- The switch of `putIfAbsent`.
unfoldable pub put_result : RtValue → RtValue → InsertResult × Node → Outcome RtValue × Node
put_result key v (already_found i, t) =
    let old = (entry_at t i).value in
    if is_null old then (ok box_nil, store_value i v t) else (ok old, t)
put_result key v (inserted_new i, t) = (ok box_nil, store_new i key v t)
put_result key v (overflow i, t) = (
  throw (illegal_state "ConcurrentHashMap_putIfAbsent - overcrowded - resizing not yet supported"),
  t,
)

unfoldable pub created : RtValue → Outcome RtValue × Node → Outcome RtValue × Node
created v (ok old, t) = (ok (if is_nil old then v else old), t)
created v r = r

module _ (equals : RtValue → RtValue → Bool) where
  unfoldable pub is_same_key : Entry → RtValue → Option Bool
  is_same_key e key = if is_null e.key then none else some (equals e.key key)

  -- `probeHash == keyHash && isSameKey(*cell, key)`
  unfoldable pub is_match : Entry → ℕ → RtValue → Option Bool
  unfolding is_same_key
  is_match e key_hash key = if e.key_hash == key_hash then is_same_key e key else some false

  unfoldable pub try_getting : Entry → RtValue → ℕ → Option RtValue
  try_getting e key key_hash =
      if not (e.key_hash == key_hash)
      then some box_null
      else if is_null e.key
      then none
      else some (if equals e.key key then e.value else box_null)

  -- Whether the search is over, and the value of the cell.
  unfoldable pub try_deleting : Entry → RtValue → ℕ → Option (Bool × RtValue)
  try_deleting e key key_hash =
      if e.key_hash == 0
      then some (true, e.value)
      else if not (e.key_hash == key_hash)
      then some (false, e.value)
      else if is_null e.key
      then none
      else some (if equals e.key key then (true, box_null) else (false, e.value))

  -- The loop over the cells behind `idx`.
  unfoldable pub probe : Node → ℕ → RtValue → (linear_probes_remaining idx : ℕ) → Option Probe
  probe t key_hash key zero idx = some (at_limit (add_word idx 1))
  probe t key_hash key (suc remaining) idx =
      let i = add_word idx 1 in
      let e = entry_at t i in
      let x = bit_xor e.key_hash key_hash in
      let rest = probe t key_hash key remaining i in
      if e.key_hash == 0
      then some (at_empty i)
      else ((if x == 0 then is_same_key e key else some false) >>= λ same.
          if same then some (at_key i) else if x % t.size == 0 then some (at_bucket i) else rest)

  unfoldable pub turn : Bool → ℕ → RtValue → ℕ → Node → Option Turn
  turn use_short_leap key_hash key idx t =
      let probe_delta = leap use_short_leap (entry_at t idx) in
      let i = add_word idx probe_delta in
      let e = entry_at t i in
      if ltb 0 probe_delta
      then if e.key_hash == 0
        then none
        else (is_match e key_hash key >>= λ same.
            some (if same then done (already_found i) t else go_on i t))
      else probe t key_hash key t.resizing_threshold idx >>= λ p.
          some (after_probe use_short_leap key_hash idx t p)

  -- The loop that follows the links of a bucket.
  unfoldable pub follow : (fuel : ℕ) → Bool → ℕ → RtValue → ℕ → Node → Option (InsertResult × Node)
  follow zero use_short_leap key_hash key idx t = none
  follow (suc fuel) use_short_leap key_hash key idx t =
      turn use_short_leap key_hash key idx t >>= λ s. elim s [
        | done r t' ↦ some (r, t')
        | go_on i t' ↦ follow fuel true key_hash key i t'
      ]

  unfoldable pub insert_or_find : (fuel : ℕ) → ℕ → RtValue → Node → Option (InsertResult × Node)
  insert_or_find fuel key_hash key t =
      let e = entry_at t key_hash in
      if e.key_hash == 0
      then some (inserted_new key_hash, claim key_hash key_hash t)
      else is_match e key_hash key >>= λ same.
          if same
          then some (already_found key_hash, t)
          else follow fuel false key_hash key key_hash t

  -- The loops of `get` and `dissoc` over the links, from a cell that the search is not over at.
  unfoldable pub get_from : (fuel : ℕ) → Node → ℕ → RtValue → (index jump : ℕ) → Option RtValue
  get_from zero t key_hash key index jump = none
  get_from (suc fuel) t key_hash key index zero = some box_nil
  get_from (suc fuel) t key_hash key index (suc j) =
      let i = slot t (index + suc j) in
      let e = t.entries i in
      let rest = get_from fuel t key_hash key i e.short_leap in
      try_getting e key key_hash >>= λ v. if is_null v then rest else some v

  unfoldable pub dissoc_from : (fuel : ℕ) → Node → ℕ → RtValue → (index jump : ℕ) → Option Node
  dissoc_from zero t key_hash key index jump = none
  dissoc_from (suc fuel) t key_hash key index zero = some t
  dissoc_from (suc fuel) t key_hash key index (suc j) =
      let i = slot t (index + suc j) in
      let e = t.entries i in
      let rest = dissoc_from fuel t key_hash key i e.short_leap in
      try_deleting e key key_hash >>= λ r. if r.0 then some (store_value i r.1 t) else rest

  module _ (hash : RtValue → ℕ) where
    unfoldable pub assoc :
        (fuel : ℕ) → Node → RtValue → RtValue → Option (Outcome (Unit {0}) × Node)
    assoc fuel t key v =
        insert_or_find fuel (hash_of_key hash key) key t >>= λ r. some (assoc_result key v r)

    unfoldable pub put_if_absent :
        (fuel : ℕ) → Node → RtValue → RtValue → Option (Outcome RtValue × Node)
    put_if_absent fuel t key v =
        insert_or_find fuel (hash_of_key hash key) key t >>= λ r. some (put_result key v r)

    unfoldable pub get_or_create :
        (fuel : ℕ) → Node → RtValue → RtValue → Option (Outcome RtValue × Node)
    get_or_create fuel t key v = put_if_absent fuel t key v >>= λ r. some (created v r)

    unfoldable pub get : (fuel : ℕ) → Node → RtValue → Option RtValue
    get fuel t key =
        let key_hash = hash_of_key hash key in
        let index = slot t key_hash in
        let e = t.entries index in
        try_getting e key key_hash >>= λ v.
        if is_null v then get_from fuel t key_hash key index e.long_leap else some v

    unfoldable pub dissoc : (fuel : ℕ) → Node → RtValue → Option Node
    dissoc fuel t key =
        let key_hash = hash_of_key hash key in
        let index = slot t key_hash in
        let e = t.entries index in
        try_deleting e key key_hash >>= λ r.
        if r.0
        then some (store_value index r.1 t)
        else dissoc_from fuel t key_hash key index e.long_leap
