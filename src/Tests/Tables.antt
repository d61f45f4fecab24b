-- ===== src/Tests/Tables.antt =====
-- Runs on a concurrent map of 4 cells, whose keys are compared by their bits.
use clojure_rt.Base.{
  ℕ, zero, suc, ◌≤◌, ◌+◌, ◌%◌, ◌^◌, ◌<◌, ◌≡◌, refl, ap, Bool, false, Option, none, some, [], arith,
  ◌==◌, inl, inr, Outcome, ok,
}
use clojure_rt.Value.{RtValue, box_nil, is_null, is_nil}
use clojure_rt.ArrayMap.Lookup.{Equality}
use clojure_rt.ConcurrentMap.Ops.{
  Node, create, assoc, get, insert_or_find, get_or_create, dissoc, slot, try_getting, assoc_result,
  store_new, hash_of_key, claim, is_match, follow, turn, probe, after_probe, store_link, get_from,
  put_if_absent, put_result, created,
}
use clojure_rt.ConcurrentMap.Links.{InBucket, link, end}
use clojure_rt.ConcurrentMap.Valid.{IsValid, KeyLaws}
use clojure_rt.ConcurrentMap.Read.{Answers, Reading, get-ends}
use clojure_rt.ConcurrentMap.Refine.{assoc-Answers, AfterAssoc, stored_for}
use clojure_rt.ConcurrentMap.Put.{AfterCreate, get_or_create-After}
use clojure_rt.ConcurrentMap.Remove.{dissoc-Answers}
use clojure_rt.ConcurrentMap.Ends.{assoc-ends}
use clojure_rt.ConcurrentMap.Fresh.{create-Answers, IsStuck, insert_or_find-IsStuck}

abbrev same_key : RtValue → RtValue → Bool
same_key a b = a == b

abbrev low_word : RtValue → ℕ
low_word a = a % 2 ^ 64

same_key-Equality : Equality same_key
same_key-Equality = record {
  same = λ a. ground arith;
  swap = λ a b e. ground arith;
  chain = λ a b c e f. ground arith;
}

key_laws : KeyLaws same_key low_word
key_laws = record {
  law = same_key-Equality;
  hashes = λ a b e. let same : a ≡ b = ground arith in ap low_word same;
  words = λ a. omega arith;
}

-- `round(pow(4, 0.33))` is 2.
abbrev two : ℕ → ℕ
two n = 2

abbrev no_entries : Node
no_entries = create two 2

abbrev node_of : {A : Type 0} → Option (A × Node) → Node
node_of none = no_entries
node_of (some x) = x.1

-- {1 101}, and {1 101, 5 105} with both keys in one bucket.
abbrev one_entry : Node
one_entry = node_of (assoc same_key low_word 3 no_entries 1 101)

abbrev two_entries : Node
two_entries = node_of (assoc same_key low_word 3 one_entry 5 105)

one_entry_run : assoc same_key low_word 3 no_entries 1 101 ≡ some (ok tt, one_entry)
unfolding create assoc try_getting insert_or_find assoc_result store_new hash_of_key claim is_match
    follow turn probe after_probe store_link is_null
one_entry_run = refl

two_entries_run : assoc same_key low_word 3 one_entry 5 105 ≡ some (ok tt, two_entries)
unfolding create assoc try_getting insert_or_find assoc_result store_new hash_of_key claim is_match
    follow turn probe after_probe store_link is_null
two_entries_run = refl

get_of_two : get same_key low_word 3 two_entries 5 ≡ some 105
unfolding create assoc try_getting insert_or_find assoc_result store_new hash_of_key claim is_match
    follow turn probe after_probe store_link is_null get get_from
get_of_two = refl

no_entries-IsValid : IsValid same_key low_word no_entries
no_entries-IsValid = (create-Answers same_key low_word key_laws two 2 (omega arith) 1).0

not_null : is_null 1 ≡ false
unfolding is_null
not_null = refl

Answers-stored :
    (key v q r : RtValue) {u : Node}
    → AfterAssoc same_key low_word key v q r (ok tt, u)
    → Answers same_key low_word u q (stored_for same_key key v q r)
Answers-stored key v q r (valid, inl (e, a)) = a
Answers-stored key v q r (valid, inr (e, a)) = absurd (cc)

-- What the first `assoc` leaves for key 1.
after_one : AfterAssoc same_key low_word 1 101 1 box_nil (ok tt, one_entry)
unfolding is_null
after_one =
    assoc-Answers same_key low_word key_laws no_entries-IsValid 1 101 refl refl 3 (ok tt, one_entry)
      one_entry_run 1 box_nil (create-Answers same_key low_word key_laws two 2 (omega arith) 1).1

assoc-Answers_example : AfterAssoc same_key low_word 5 105 1 101 (ok tt, two_entries)
unfolding is_null
assoc-Answers_example =
    assoc-Answers same_key low_word key_laws after_one.0 5 105 refl refl 3 (ok tt, two_entries)
      two_entries_run 1 101 (Answers-stored 1 101 1 box_nil after_one)

two_entries-IsValid : IsValid same_key low_word two_entries
unfolding is_null
two_entries-IsValid =
    (assoc-Answers same_key low_word key_laws after_one.0 5 105 refl refl 3 (ok tt, two_entries)
      two_entries_run 1 101 (Answers-stored 1 101 1 box_nil after_one)).0

-- Key 1 keeps its value.
two_entries-Answers : Answers same_key low_word two_entries 1 101
unfolding is_null
two_entries-Answers = Answers-stored 5 105 1 101 (
    assoc-Answers same_key low_word key_laws after_one.0 5 105 refl refl 3 (ok tt, two_entries)
      two_entries_run 1 101 (Answers-stored 1 101 1 box_nil after_one))

dissoc-Answers_example :
    (n : ℕ) × (u : Node) × ((fuel : ℕ) → dissoc same_key low_word (n + fuel) two_entries 5 ≡ some u)
    × IsValid same_key low_word u
    × Answers same_key low_word u 1 (stored_for same_key 5 box_nil 1 101)
unfolding is_null
dissoc-Answers_example =
    dissoc-Answers same_key low_word key_laws two_entries-IsValid 5 refl 1 101 two_entries-Answers

get-ends_example :
    (r : RtValue) × Reading same_key low_word two_entries 5 r
    × Answers same_key low_word two_entries 5 r
get-ends_example = get-ends same_key low_word key_laws two_entries-IsValid 5

get_or_create_run : get_or_create same_key low_word 3 no_entries 1 101 ≡ some (ok 101, one_entry)
unfolding create assoc try_getting insert_or_find assoc_result store_new hash_of_key claim is_match
    follow turn probe after_probe store_link is_null get_or_create put_if_absent put_result created
    is_nil
get_or_create_run = refl

get_or_create-After_example :
    AfterCreate same_key low_word 1 101 box_nil 2 box_nil (ok 101, one_entry)
unfolding is_null is_nil create
get_or_create-After_example =
    get_or_create-After same_key low_word key_laws no_entries-IsValid 1 101 box_nil 2 box_nil refl
      refl (λ s. refl) (create-Answers same_key low_word key_laws two 2 (omega arith) 1).1
      (create-Answers same_key low_word key_laws two 2 (omega arith) 2).1 3 (ok 101, one_entry)
      get_or_create_run

-- Behind the only cell of the bucket of 5 there are empty cells.
one_entry_clear :
    (d : ℕ)
    → 0 < d
    → d ≤ one_entry.resizing_threshold
    → InBucket one_entry 1 (slot one_entry (1 + d))
    → ⊥
unfolding create assoc try_getting insert_or_find assoc_result store_new hash_of_key claim is_match
    follow turn probe after_probe store_link is_null
one_entry_clear zero p q o = absurd (omega arith)
one_entry_clear (suc zero) p q o = absurd (let x = o.0 in omega arith)
one_entry_clear (suc (suc zero)) p q o = absurd (let x = o.0 in omega arith)
one_entry_clear (suc (suc (suc d))) p q o = absurd (omega arith)

one_entry-link : link one_entry false 1 ≡ 0
unfolding create assoc try_getting insert_or_find assoc_result store_new hash_of_key claim is_match
    follow turn probe after_probe store_link is_null
one_entry-link = refl

assoc-ends_example :
    (result : Outcome (Unit {0}) × Node) × (assoc same_key low_word (0 + suc 4) one_entry 5 105
      ≡ some result)
unfolding create assoc try_getting insert_or_find assoc_result store_new hash_of_key claim is_match
    follow turn probe after_probe store_link is_null
assoc-ends_example =
    assoc-ends same_key low_word key_laws after_one.0 5 [] (end one_entry-link) one_entry_clear 105
      4

-- One cell, which has the key 1.
abbrev one_cell_table : Node
one_cell_table = record {
  size = 1;
  resizing_threshold = 1;
  entries = λ i. record { key = 1; value = 101; key_hash = 1; short_leap = 0; long_leap = 0 };
}

one_cell_table-IsStuck : IsStuck same_key 2 2 one_cell_table
unfolding is_null
one_cell_table-IsStuck = record {
  some_limit = omega arith;
  full = λ idx. omega arith;
  bucket = λ idx. refl;
  some_key = λ idx. refl;
  other = λ idx. refl;
}

insert_or_find-IsStuck_example : insert_or_find same_key 100 2 2 one_cell_table ≡ none
insert_or_find-IsStuck_example =
    insert_or_find-IsStuck same_key 2 2 100 one_cell_table one_cell_table-IsStuck
