-- ===== src/ConcurrentMap/Follow.antt =====
-- What the loop of `insertOrFind` over the links of a bucket leaves when it ends.
use mathlib.Core.Path.{subst}
use clojure_rt.Base.{
  ℕ, zero, suc, ◌%◌, ◌^◌, ◌<◌, ◌≡◌, refl, sym, ◌∙◌, inl, inr, Bool, true, Option, none, some, ◌∷◌,
  Option-cases,
}
use clojure_rt.Value.{RtValue}
use clojure_rt.ConcurrentMap.Ops.{
  Node, slot, InsertResult, already_found, inserted_new, overflow, follow, turn, done, go_on,
}
use clojure_rt.ConcurrentMap.Links.{
  hash_at, link, next, InBucket, Owner, Fits, Links, step, Frame, Frame-trans_left,
}
use clojure_rt.ConcurrentMap.Search.{some-inj}
use clojure_rt.ConcurrentMap.Turn.{
  claimed, Fits-Frame, Ended, Followed, Moved, Turned, over, moved, turn-Turned,
}

module _ (equals : RtValue → RtValue → Bool) (h : ℕ) (key : RtValue) where
  -- The turns after one that goes on.
  extend-Ended :
      (r : InsertResult) (short : Bool) (s i : ℕ) (t t' u : Node)
      → Frame (slot t h) h none t t'
      → 0 < link t' short s
      → slot t i ≡ next t' short s
      → Frame (slot t h) h (claimed t r) t' u
      → claimed t' r ≡ claimed t r
      → Ended h r true (slot t' i) t' u
      → Ended h r short s t u
  extend-Ended r short s i t t' u frame p there later same e =
      let kept = later.kept short s p in
      let here : slot t' i ≡ next u short s =
        rw (frame.size, kept, later.size) (there ∙ rw frame.size refl) in
      record {
        frame = Frame-trans_left frame later;
        links = e.links;
        path = slot t' i ∷ e.path;
        walk = step (rw kept p) here e.walk;
        reaches = λ j q. inr (e.reaches j (same ∙ q));
        fresh = λ j q.
            let (z, n) = e.fresh j (same ∙ q) in
            elim (frame.hashes j) [ inl k ↦ (sym k ∙ z, n) | inr k ↦ absurd (let q = k.2 in cc) ];
      }

  extend :
      (r : InsertResult) (short : Bool) (idx i : ℕ) (t t' u : Node)
      → Moved equals h key short idx t i t'
      → Followed equals h key true (slot t' i) t' r u
      → Followed equals h key short (slot t idx) t r u
  extend (already_found k) short idx i t t' u m (same, n) =
      let same' : hash_at t' (slot t k) ≡ h = rw m.frame.size at same in
      elim (m.frame.hashes (slot t k)) [
        | inl e ↦ (sym e ∙ same', rw (m.frame.size, m.frame.keys (slot t k)) at n)
        | inr e ↦ absurd (let q = e.2 in cc)
      ]
  extend (inserted_new k) short idx i t t' u m e =
      extend-Ended (inserted_new k) short (slot t idx) i t t' u m.frame m.linked m.there
        (subst (λ n. Frame (h % n) h (some (k % n)) t' u) m.frame.size e.frame)
        (rw m.frame.size refl) e
  extend (overflow k) short idx i t t' u m e =
      extend-Ended (overflow k) short (slot t idx) i t t' u m.frame m.linked m.there
        (subst (λ n. Frame (h % n) h none t' u) m.frame.size e.frame) refl e

  finished :
      {short : Bool} {idx : ℕ} {t : Node} {r r' : InsertResult} {u u' : Node}
      → Turned equals h key short idx t (done r' u')
      → ◌≡◌ {A = Option (InsertResult × Node)} (some (r', u')) (some (r, u))
      → Followed equals h key short (slot t idx) t r u
  finished {short} {idx} {t} (over f) e =
      subst (λ x. Followed equals h key short (slot t idx) t x.0 x.1) (some-inj e) f

  the_move :
      {short : Bool} {idx i : ℕ} {t t' : Node}
      → Turned equals h key short idx t (go_on i t')
      → Moved equals h key short idx t i t'
  the_move (moved m) = m

  -- The loop, for a hash h that is not 0: from a link that the bucket of h owns, it ends at a cell with the
  -- hash and the key, or else at the end of a chain, behind which it has claimed a cell or not.
  pub follow-Followed :
      (fuel : ℕ) (short : Bool) (idx : ℕ) (t : Node) (r : InsertResult) (u : Node)
      → Fits t
      → Links t
      → 0 < h
      → Owner t (slot t h) short (slot t idx)
      → 0 < hash_at t (slot t idx)
      → idx < 2 ^ 64
      → follow equals fuel short h key idx t ≡ some (r, u)
      → Followed equals h key short (slot t idx) t r u
  unfolding follow
  follow-Followed zero short idx t r u fits links pos own taken word q = absurd (cc)
  follow-Followed (suc fuel) short idx t r u fits links pos own taken word q =
      let turned = turn-Turned equals h key short idx t fits links pos own taken word in
      elim (Option-cases (turn equals short h key idx t)) [
        | inl w ↦ absurd (let no : none ≡ some (r, u) = rw w at q in cc)
        | inr (done r' u', w) ↦ finished (turned _ w) (rw w at q)
        | inr (go_on i t', w) ↦
            let m = the_move (turned _ w) in
            let own' : InBucket t' (slot t' h) (slot t' i) =
              subst (λ n. InBucket t' (h % n) (i % n)) (sym m.frame.size) m.own in
            extend r short idx i t t' u m (
              follow-Followed fuel true i t' r u (Fits-Frame m.frame fits) m.links pos own' own'.0
                m.word (rw w at q))
      ]
