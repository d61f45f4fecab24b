-- ===== src/Counts/Preserve.antt =====
-- What each step on a reference count of backend/runtime/Object.h keeps.
use clojure_rt.Base.{
  has, update-all, update-others, ℕ, ◌+◌, ◌-◌, ◌/◌, ◌%◌, ◌^◌, ◌<◌, ◌≡◌, ◌≢◌, refl, inl, inr, true,
  false, [], ◌∷◌, ◌==◌, length, add_word, sub_word, arith, Bool-cases, ==_self,
}
use clojure_rt.Counts.System.{
  Pc, idle, retaining, releasing, reusing, promoting, State, IsShared, IsLocal, remove, at, gain,
  lose, create, count_inc, shared_bit, Retain, Release, Reuse, Promote, Step, retain, release,
  reuse, promote, give, Reach, first, later,
}
use clojure_rt.Counts.Keep.{
  Loaded, IsBusy, Inv, length-remove, has-remove, has-remove-old, only, only_one,
}

other-Loaded :
    (count new : ℕ) (p : Pc)
    → new % 2 ≡ count % 2
    → (IsBusy p → IsShared count × (count ≢ 3))
    → Loaded count p
    → Loaded new p
other-Loaded count new idle same h l = tt
other-Loaded count new (retaining c) same h (e, l) =
    (omega arith, λ q. absurd (ground (arith, (h tt).0)))
other-Loaded count new (releasing c) same h (e, l) =
    (omega arith, λ q. absurd (ground (arith, (h tt).0)))
other-Loaded count new (promoting c) same h (e, l) =
    (omega arith, λ q. absurd (ground (arith, (h tt).0)))
other-Loaded count new reusing same h l = absurd ((h tt).1 l)

idle-Loaded : (count : ℕ) (p : Pc) → (IsBusy p → ⊥) → Loaded count p
idle-Loaded count idle h = tt
idle-Loaded count (retaining c) h = absurd (h tt)
idle-Loaded count (releasing c) h = absurd (h tt)
idle-Loaded count (promoting c) h = absurd (h tt)
idle-Loaded count reusing h = absurd (h tt)

module _ {s : State} (inv : Inv s) (i : ℕ) where
  open inv use {counted, live, small, gone, local, busy, loaded}

  mine : {p : Pc} → s.pc i ≡ p → IsBusy p → has i s.refs ≡ true
  mine {p} q b = busy i (rw q b)

  seen : {p : Pc} → s.pc i ≡ p → Loaded s.count p
  seen {p} q = rw (← q) (loaded i)

  pub alive : has i s.refs ≡ true → s.destroyed ≡ false
  alive h = elim (Bool-cases s.destroyed) [
    | inl d ↦ absurd (let e : s.refs ≡ [] = gone d in ground (arith, rw e at h))
    | inr n ↦ n
  ]

  -- While thread `i` has a reference, another thread that is at work uses a shared object, and is not alone.
  others :
      (k : ℕ) → has i s.refs ≡ true → i ≢ k → IsBusy (s.pc k) → IsShared s.count × (s.count ≢ 3)
  others k h ne b = (
    ground (arith, λ (l : IsLocal s.count). ne (local l i k h (busy k b))),
    λ q. ne (only_one i k s.refs (ground (arith, counted (alive h))) h (busy k b)),
  )

  with_pc : (p : Pc) → has i s.refs ≡ true → Loaded s.count p → Inv (at s i p)
  with_pc p h l = record {
    counted = counted;
    live = live;
    small = small;
    gone = gone;
    local = local;
    busy = update-all (λ j q. IsBusy q → has j s.refs ≡ true) s.pc i p (λ b. h) busy;
    loaded = update-all (λ j q. Loaded s.count q) s.pc i p l loaded;
  }

  gain-Inv :
      has i s.refs ≡ true → length s.refs + 1 < 2 ^ 63 → Inv (gain s i (add_word s.count count_inc))
  gain-Inv h room = record {
    counted = λ d. ground (arith, counted d);
    live = λ d. omega arith;
    small = omega arith;
    gone = λ d. absurd (ground (arith, alive h, d));
    local = λ l j k a b.
        let was : IsLocal s.count = omega arith in
        ground (arith, local was j k, local was i j h, local was i k h);
    busy =
        update-others (λ j q. IsBusy q → has j (i ∷ s.refs) ≡ true) s.pc i idle (λ b. absurd b)
          (λ k ne b. ground (arith, busy k b));
    loaded =
        update-others (λ j q. Loaded (add_word s.count count_inc) q) s.pc i idle tt
          (λ k ne. other-Loaded s.count _ (s.pc k) (omega arith) (others k h ne) (loaded k));
  }

  lose-Inv : has i s.refs ≡ true → s.count / 2 ≢ 1 → Inv (lose s i (sub_word s.count count_inc))
  lose-Inv h more =
      let n = counted (alive h) in
      let down : sub_word s.count count_inc ≡ s.count - 2 = ground (arith, n, live (alive h)) in
      record {
        counted = λ d. ground (arith, n, length-remove i s.refs h);
        live = λ d. ground (arith, n, length-remove i s.refs h, live d);
        small = omega (arith, length-remove i s.refs h, small);
        gone = λ d. absurd (ground (arith, alive h, d));
        local = λ l j k a b.
            local (ground (arith, down, n, live (alive h))) j k (has-remove-old i j s.refs a)
              (has-remove-old i k s.refs b);
        busy =
            update-others (λ j q. IsBusy q → has j (remove i s.refs) ≡ true) s.pc i idle
              (λ b. absurd b) (λ k ne b. has-remove i k s.refs ne (busy k b));
        loaded =
            update-others (λ j q. Loaded (sub_word s.count count_inc) q) s.pc i idle tt
              (λ k ne.
                other-Loaded s.count _ (s.pc k) (ground (arith, down, n, live (alive h)))
                  (others k h ne) (loaded k));
      }

  destroy-Inv :
      (count : ℕ)
      → has i s.refs ≡ true
      → s.count / 2 ≡ 1
      → Inv (record (lose s i count) { destroyed = true })
  destroy-Inv count h last =
      let all : s.refs ≡ (i ∷ []) = only i s.refs (ground (arith, counted (alive h))) h in
      let empty : remove i s.refs ≡ [] = rw (all, ==_self i) refl in
      record {
        counted = λ d. absurd (cc);
        live = λ d. absurd (cc);
        small = rw empty (omega arith);
        gone = λ d. empty;
        local = λ l j k a b. absurd (ground (arith, rw empty at a));
        busy =
            update-others (λ j q. IsBusy q → has j (remove i s.refs) ≡ true) s.pc i idle
              (λ b. absurd b) (λ k ne b. has-remove i k s.refs ne (busy k b));
        loaded =
            update-others (λ j q. Loaded count q) s.pc i idle tt
              (λ k ne.
                idle-Loaded count (s.pc k)
                  (λ b. ne (only_one i k s.refs (ground (arith, counted (alive h))) h (busy k b))));
      }

  -- Writing a count with as many references, while thread `i` is the only one at work.
  write-Inv :
      (count : ℕ)
      → has i s.refs ≡ true
      → count / 2 ≡ s.count / 2
      → ((k : ℕ) → has k s.refs ≡ true → i ≡ k)
      → Inv (record (at s i idle) { count = count })
  write-Inv count h same alone = record {
    counted = λ d. omega (arith, counted d);
    live = live;
    small = small;
    gone = gone;
    local = λ l j k a b. ground (arith, alone j a, alone k b);
    busy = update-all (λ j q. IsBusy q → has j s.refs ≡ true) s.pc i idle (λ b. absurd b) busy;
    loaded =
        update-others (λ j q. Loaded count q) s.pc i idle tt
          (λ k ne. idle-Loaded count (s.pc k) (λ b. ne (alone k (busy k b))));
  }

  Retain-Inv : {t : State} → Retain s i t → Inv t
  Retain-Inv (Retain.load q h) = with_pc (retaining s.count) h (refl, λ l. refl)
  Retain-Inv (Retain.store {c} q l room) =
      let e : c ≡ s.count = ground (arith, seen q) in rw e (gain-Inv (mine q tt) room)
  Retain-Inv (Retain.fetch_add q sh room) = gain-Inv (mine q tt) room

  Release-Inv : {t : State} → Release s i t → Inv t
  Release-Inv (Release.load q h) = with_pc (releasing s.count) h (refl, λ l. refl)
  Release-Inv (Release.destroy_local {c} q l z) =
      let e : c ≡ s.count = ground (arith, seen q) in
      let h = mine q tt in
      destroy-Inv s.count h (ground (arith, e, z, counted (alive h), live (alive h), small))
  Release-Inv (Release.store {c} q l nz) =
      let e : c ≡ s.count = ground (arith, seen q) in
      let h = mine q tt in
      rw e (lose-Inv h (ground (arith, e, nz, counted (alive h), live (alive h), small)))
  Release-Inv (Release.destroy_shared q sh one) = destroy-Inv _ (mine q tt) one
  Release-Inv (Release.fetch_sub q sh more) = lose-Inv (mine q tt) more

  Reuse-Inv : {t : State} → Reuse s i t → Inv t
  Reuse-Inv (Reuse.load q h one sh) = with_pc reusing h (ground arith)
  Reuse-Inv (Reuse.store q) =
      let h = mine q tt in
      let three : s.count ≡ 3 = seen q in
      write-Inv count_inc h (omega arith)
        (λ k. only_one i k s.refs (ground (arith, three, counted (alive h))) h)

  Promote-Inv : {t : State} → Promote s i t → Inv t
  Promote-Inv (Promote.load q h) = with_pc (promoting s.count) h (refl, λ l. refl)
  Promote-Inv (Promote.skip q sh) = with_pc idle (mine q tt) tt
  Promote-Inv (Promote.store {c} q l) =
      let e : c ≡ s.count = ground (arith, seen q) in
      let h = mine q tt in
      write-Inv (c + shared_bit) h (omega arith) (λ k. local (ground (arith, e)) i k h)

  give-Inv :
      (j : ℕ)
      → s.pc i ≡ idle
      → has i s.refs ≡ true
      → IsShared s.count
      → Inv (record s { refs = j ∷ remove i s.refs })
  give-Inv j q h sh = record {
    counted = λ d. ground (arith, counted d, length-remove i s.refs h);
    live = λ d. omega arith;
    small = omega (arith, small, length-remove i s.refs h);
    gone = λ d. absurd (ground (arith, alive h, d));
    local = λ l. absurd (omega arith);
    busy = λ k b. elim (Bool-cases (i == k)) [
      | inl e ↦
          let same : i ≡ k = ground arith in
          absurd (let rest : s.pc k ≡ idle = rw same at q in rw rest at b)
      | inr n ↦ ground (arith, n, has-remove i k s.refs (ground (arith, n)) (busy k b))
    ];
    loaded = loaded;
  }

Step-Inv : {s t : State} → Inv s → Step s t → Inv t
Step-Inv inv (retain i m) = Retain-Inv inv i m
Step-Inv inv (release i m) = Release-Inv inv i m
Step-Inv inv (reuse i m) = Reuse-Inv inv i m
Step-Inv inv (promote i m) = Promote-Inv inv i m
Step-Inv inv (give i j q h sh) = give-Inv inv i j q h sh

create-Inv : (owner : ℕ) → Inv (create owner)
create-Inv owner = record {
  counted = λ d. omega arith;
  live = λ d. omega arith;
  small = omega arith;
  gone = λ d. absurd (cc);
  local = λ l j k a b. ground arith;
  busy = λ j b. absurd b;
  loaded = λ j. tt;
}

pub Reach-Inv : {owner : ℕ} {s : State} → Reach owner s → Inv s
Reach-Inv {owner} first = create-Inv owner
Reach-Inv (later r step) = Step-Inv (Reach-Inv r) step
