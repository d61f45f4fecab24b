-- ===== src/Tests/Texts.antt =====
-- Runs on strings.
use clojure_rt.Base.{◌≡◌, refl, true, [], ◌∷◌, ◌++◌, arith, ok}
use clojure_rt.Hash.Mix.{avalanche, avalanche_64}
use clojure_rt.Strings.Ops.{
  RtString, flat, compound, create_static, create_compound, compute_hash, hash_from, string_equals,
  same_bytes,
}
use clojure_rt.Strings.Holds.{IsText, text, create_compound-IsText}
use clojure_rt.Strings.Compare.{string_equals-same_bytes, string_equals-empty_block}

-- "ab"
abbrev ab : RtString
unfolding create_static
ab = flat (create_static (97 ∷ (98 ∷ [])))

ab-IsText : IsText ab
unfolding create_static
ab-IsText = record {
  counted = refl;
  hashed = refl;
  blocks = (record { counted = refl; hashed = refl }, tt);
}

-- "ab" in two blocks.
abbrev a_b : RtString
unfolding create_static
a_b =
    compound 2 (compute_hash (97 ∷ (98 ∷ [])))
      (create_static (97 ∷ []) ∷ (create_static (98 ∷ []) ∷ []))

a_b-IsText : IsText a_b
unfolding create_static
a_b-IsText = record {
  counted = refl;
  hashed = refl;
  blocks =
      (record { counted = refl; hashed = refl }, (record { counted = refl; hashed = refl }, tt));
}

create_compound-IsText_example :
    (s : RtString) × (create_compound ab a_b ≡ ok s) × IsText s × (text s ≡ text ab ++ text a_b)
unfolding create_static compute_hash hash_from avalanche avalanche_64
create_compound-IsText_example =
    create_compound-IsText ab a_b ab-IsText a_b-IsText (omega arith) (λ q. absurd (omega arith))

-- "ab" with a hash that is not set, as `replace` returns it.
abbrev ab_unset : RtString
ab_unset = flat (record { count = 2; hash = 0; value = 97 ∷ (98 ∷ []) })

string_equals-same_bytes_example :
    string_equals a_b ab_unset ≡ ok (same_bytes (97 ∷ (98 ∷ [])) (97 ∷ (98 ∷ [])))
unfolding create_static
string_equals-same_bytes_example =
    string_equals-same_bytes a_b ab_unset (record { counted = refl; blocks = (refl, (refl, tt)) })
      (record { counted = refl; blocks = (refl, tt) }) (omega arith, (omega arith, tt))
      (omega arith, tt) (omega arith, (omega arith, tt)) (omega arith) (omega arith)

-- The blocks "" and "ab", and the blocks "" and "ba".
string_equals-empty_block_example :
    string_equals
      (compound 2 7 (create_static [] ∷ (create_static (97 ∷ (98 ∷ [])) ∷ [])))
      (compound 2 7 (create_static [] ∷ (create_static (98 ∷ (97 ∷ [])) ∷ [])))
    ≡ ok true
unfolding create_static
string_equals-empty_block_example =
    string_equals-empty_block 2 7 7 (create_static []) (create_static [])
      (create_static (97 ∷ (98 ∷ [])) ∷ []) (create_static (98 ∷ (97 ∷ [])) ∷ []) refl
