-- ===== src/Ebr/Moves.antt =====
-- What a step of one thread in backend/runtime/Ebr.c keeps.
use clojure_rt.Base.{has, update, ℕ, ◌≡◌, inl, inr, refl, true, false, ◌==◌, arith, Bool-cases}
use clojure_rt.Ebr.System.{
  Pc, unknown, reusing, resetting, outside, leaving, entering, entered, inside, flushing, unlinked,
  retiring, Thread, linked, State, registered, nothing, Register, Move, register_new, register_used,
  register_active, register_epoch, unregister, unregister_inside, terminate, enter_load,
  enter_active, enter_epoch, flush_load, flush_store, leave, acquire, unlink, retire_load,
  retire_push,
}
use clojure_rt.Ebr.Frame.{IsGone, IsKnown, Inv, EntryIn}
use clojure_rt.Ebr.Turn.{
  Turn, with_thread-Inv, not_retiring, here, inactive-Turn, active-Turn, renewed-Turn,
}
use clojure_rt.Ebr.Shared.{unlink-Inv, register-Inv, retire-Inv}

module _ {s : State} (inv : Inv s) (i : ℕ) where
  open inv use {threads, member, retirings}

  abbrev t : Thread
  t = s.thread i

  known : {p : Pc} → t.pc ≡ p → IsKnown p → has i s.registry ≡ true
  known {p} q k = member i (rw q k)

  idle_holds : t.active ≡ false → (v : ℕ) → t.holds v ≡ false
  idle_holds off v = elim (Bool-cases (t.holds v)) [
    | inl h ↦ absurd (ground (arith, (threads i).guarded v h))
    | inr n ↦ n
  ]

  retire_epoch :
      (v w e : ℕ) → IsGone (s.status v) → retiring v s.global_epoch ≡ retiring w e → EntryIn s w e
  retire_epoch v w e g q =
      let held : EntryIn s v s.global_epoch = record {
        past = omega arith;
        gone = g;
        earlier = λ j h. ground (arith, (threads j).young ((threads j).guarded v h).0);
      } in
      let e1 : v ≡ w = cc in let e2 : s.global_epoch ≡ e = cc in rw (← e1, ← e2) held

  entered-Turn : (c : ℕ) → t.pc ≡ entered c → Turn s i (record t { pc = inside; local_epoch = c })
  entered-Turn c q =
      let (on, le) = here inv i q in
      record {
        ok = record {
          below = ground (arith, (threads i).young on);
          young = λ on. ground (arith, (threads i).young on);
          guarded = (threads i).guarded;
          place = on;
        };
        listed = λ k. known q tt;
        keeps = λ v h. inl (h, refl);
        stays = λ on. inl (on, refl);
        retires = λ v e. not_retiring (λ q. q);
      }

  acquired-Turn :
      (v : ℕ)
      → t.pc ≡ inside
      → s.status v ≡ linked
      → Turn s i (record t { holds = update t.holds v true })
  acquired-Turn v q l = record {
    ok = record {
      below = (threads i).below;
      young = (threads i).young;
      guarded = λ w h. elim (Bool-cases (v == w)) [
        | inl e ↦ (here inv i q, let vw : v ≡ w = ground arith in rw (← vw, l) tt)
        | inr n ↦ (threads i).guarded w (ground (arith, n, h))
      ];
      place = (threads i).place;
    };
    listed = λ k. known q tt;
    keeps = λ w h. elim (Bool-cases (v == w)) [
      | inl e ↦ inr (let vw : v ≡ w = ground arith in rw (← vw) l)
      | inr n ↦ inl (ground (arith, n, h), refl)
    ];
    stays = λ on. inl (on, refl);
    retires = λ w e r. retirings i w e r;
  }

  pub Register-Inv : {s' : State} → Register s i t s' → Inv s'
  Register-Inv (register_new q out) =
      let reg = register-Inv i inv in
      with_thread-Inv i
        (inactive-Turn reg i registered (omega arith) refl (λ v. refl) refl (λ q. q)
          (λ k. ground arith))
        reg
  Register-Inv (register_used q reg ended) =
      with_thread-Inv i
        (inactive-Turn inv i (record t { pc = reusing; terminated = false }) (threads i).below
          (here inv i q) (idle_holds (here inv i q)) (here inv i q) (λ q. q) (λ k. reg))
        inv
  Register-Inv (register_active q) =
      with_thread-Inv i
        (inactive-Turn inv i (record t { pc = resetting; active = false }) (threads i).below refl
          (idle_holds (here inv i q)) refl (λ q. q) (λ k. known q tt))
        inv
  Register-Inv (register_epoch q) =
      with_thread-Inv i
        (inactive-Turn inv i (record t { pc = outside; local_epoch = 0 }) (omega arith)
          (here inv i q) (idle_holds (here inv i q)) (here inv i q) (λ q. q) (λ k. known q tt))
        inv
  Register-Inv (unregister q) =
      with_thread-Inv i
        (inactive-Turn inv i (record t { pc = leaving; active = false; holds = nothing })
          (threads i).below refl (λ v. refl) refl (λ q. q) (λ k. known q tt))
        inv
  Register-Inv (unregister_inside q) =
      with_thread-Inv i
        (inactive-Turn inv i (record t { pc = leaving; active = false; holds = nothing })
          (threads i).below refl (λ v. refl) refl (λ q. q) (λ k. known q tt))
        inv
  Register-Inv (terminate q) =
      with_thread-Inv i
        (inactive-Turn inv i (record t { pc = unknown; terminated = true }) (threads i).below
          (here inv i q) (idle_holds (here inv i q)) (here inv i q) (λ q. q) (λ k. absurd k))
        inv

  pub Move-Inv : {s' : State} → Move s i t s' → Inv s'
  Move-Inv (enter_load q) =
      with_thread-Inv i
        (inactive-Turn inv i (record t { pc = entering s.global_epoch }) (threads i).below
          (here inv i q) (idle_holds (here inv i q)) (here inv i q, omega arith) (λ q. q)
          (λ k. known q tt))
        inv
  Move-Inv (enter_active {c} q) =
      with_thread-Inv i
        (renewed-Turn inv i
          (record t { pc = entered c; active = true; since = s.global_epoch; holds = nothing })
          (threads i).below refl refl (known q tt) (refl, (here inv i q).1) (λ q. q))
        inv
  Move-Inv (enter_epoch {c} q) = with_thread-Inv i (entered-Turn c q) inv
  Move-Inv (flush_load q) =
      with_thread-Inv i
        (active-Turn inv i (flushing s.global_epoch) (here inv i q, omega arith) (here inv i q)
          (λ v e. not_retiring (λ q. q)))
        inv
  Move-Inv (flush_store {c} q) =
      with_thread-Inv i
        (renewed-Turn inv i
          (record t { pc = inside; local_epoch = c; since = s.global_epoch; holds = nothing })
          (here inv i q).1 refl refl (known q tt) (here inv i q).0 (λ q. q))
        inv
  Move-Inv (leave q) =
      with_thread-Inv i
        (inactive-Turn inv i (record t { pc = outside; active = false; holds = nothing })
          (threads i).below refl (λ v. refl) refl (λ q. q) (λ k. known q tt))
        inv
  Move-Inv (acquire v q l) = with_thread-Inv i (acquired-Turn v q l) inv
  Move-Inv (unlink v q l) =
      let gone = unlink-Inv v l inv in
      with_thread-Inv i
        (active-Turn gone i (unlinked v) (here inv i q, ground arith) (here inv i q)
          (λ v e. not_retiring (λ q. q)))
        gone
  Move-Inv (retire_load {v} q) =
      with_thread-Inv i
        (active-Turn inv i (retiring v s.global_epoch) (here inv i q).0 (here inv i q).0
          (λ w e r. retire_epoch v w e (here inv i q).1 r))
        inv
  Move-Inv (retire_push {v} {e} q) =
      let pushed = retire-Inv v e (retirings i v e q) inv in
      with_thread-Inv i
        (active-Turn pushed i inside (here inv i q) (here inv i q) (λ v e. not_retiring (λ q. q)))
        pushed
