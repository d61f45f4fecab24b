-- ===== src/Tests/Interning.antt =====
-- Interning of strings, which stand for themselves.
use clojure_rt.Base.{
  ℕ, suc, ◌+◌, ◌%◌, ◌^◌, ◌≡◌, refl, ap, Bool, Option, none, some, arith, ◌==◌, Outcome, ok,
}
use clojure_rt.Value.{RtValue, box_nil, is_null, is_nil, box_keyword}
use clojure_rt.ArrayMap.Lookup.{Equality}
use clojure_rt.ConcurrentMap.Ops.{
  Node, create, assoc, get, insert_or_find, dissoc, try_getting, assoc_result, store_new,
  hash_of_key, claim, is_match, follow, turn, probe, after_probe, store_link, get_from,
  put_if_absent, put_result,
}
use clojure_rt.ConcurrentMap.Valid.{IsValid, KeyLaws}
use clojure_rt.ConcurrentMap.Read.{Answers}
use clojure_rt.ConcurrentMap.Fresh.{create-Answers}
use clojure_rt.Keywords.Ops.{Interned, create_keyword, intern_new, keyword_result}
use clojure_rt.Keywords.Again.{create_keyword-again}

abbrev same_string : RtValue → RtValue → Bool
same_string a b = a == b

abbrev string_hash : RtValue → ℕ
string_hash a = a % 2 ^ 64

same_string-Equality : Equality same_string
same_string-Equality = record {
  same = λ a. ground arith;
  swap = λ a b e. ground arith;
  chain = λ a b c e f. ground arith;
}

string_laws : KeyLaws same_string string_hash
string_laws = record {
  law = same_string-Equality;
  hashes = λ a b e. let same : a ≡ b = ground arith in ap string_hash same;
  words = λ a. omega arith;
}

-- `round(pow(4, 0.33))` is 2.
abbrev two : ℕ → ℕ
two n = 2

abbrev no_keywords : Node
no_keywords = create two 2

no_keywords-IsValid : IsValid same_string string_hash no_keywords
no_keywords-IsValid = (create-Answers same_string string_hash string_laws two 2 (omega arith) 1).0

abbrev none_interned : Interned
none_interned = record {
  keywords = no_keywords;
  keywords_inverted = no_keywords;
  min_unused_keyword = 1;
}

abbrev interned_of : Option (Outcome RtValue × Interned) → Interned
interned_of none = none_interned
interned_of (some x) = x.1

abbrev one_interned : Interned
one_interned = interned_of (create_keyword same_string string_hash 3 none_interned 5)

not_interned : Answers same_string string_hash no_keywords 5 box_nil
unfolding get get_from create try_getting hash_of_key is_null
not_interned = (1, λ fuel. let e : 1 + fuel ≡ suc fuel = omega arith in rw e refl)

one_interned_run :
    create_keyword same_string string_hash (1 + 2) none_interned 5
    ≡ some (ok (box_keyword 1), one_interned)
unfolding create_keyword intern_new keyword_result get get_from assoc put_if_absent put_result
    create try_getting insert_or_find assoc_result store_new hash_of_key claim is_match follow turn
    probe after_probe store_link is_null is_nil box_keyword dissoc
one_interned_run = refl

create_keyword-again_example :
    (n : ℕ) × ((fuel : ℕ)
      → create_keyword same_string string_hash (n + fuel) one_interned 5
        ≡ some (ok (box_keyword 1), one_interned))
unfolding is_null is_nil create not_interned
create_keyword-again_example =
    create_keyword-again same_string string_hash string_laws none_interned 5 5 box_nil 2
      (box_keyword 1) one_interned no_keywords-IsValid (λ s. refl) refl (omega arith) refl
      not_interned one_interned_run
