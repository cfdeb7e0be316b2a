-- ===== src/Operator/Alone.antt =====
-- A worker that runs by itself (pkg/operator/operator.go): its calls one by one are
-- `processNextWorkItem`.
use helm_operator.Base.{
  Bool, Bool-cases, Option, String, false, inl, inr, none, refl, some, true, ℕ, ◌≡◌, suc, zero,
}
use helm_operator.Api.{HelmRelease}
use helm_operator.Errors.{Error, is_not_found}
use helm_operator.Effects.{Result, ok, err, Outcome, returned, panicked, ◌>>=◌}
use helm_operator.Operator.Calls.{Controller, Obj, expected, invalid}
use helm_operator.Operator.Queue.{
  recorded, sync_handler, sync_locked, sync_found, process_next_work_item, process_got, finish_item,
  report_error, lock_name, reason_of, sync_split,
}
use helm_operator.Operator.Turns.{
  Stage, ready, releasing, handled, marking, ended, on_item, on_key, on_lock, on_resource, on_sync,
  advance,
}

module _ {W : Type 0} (c : Controller W) where
  abbrev calls : ℕ → Stage × W → Stage × W
  calls zero x = x
  calls (suc k) x = calls k (advance c x.0 x.1)

  abbrev at_end : Outcome Bool × W → Stage × W
  at_end x = (ended x.0, x.1)

  abbrev marked : Obj String → Outcome (Option Error) × W → Outcome Bool × W
  marked obj x = ((λ v. (x.0, v)) >>= report_error c) (c.queue_done obj x.1)

  abbrev finished : String → Outcome (Option Error) × W → Outcome Bool × W
  finished key x = marked (expected key) (((λ v. (x.0, v)) >>= finish_item c key) x.1)

  abbrev unlocked : String → String → Outcome (Option Error) × W → Outcome (Option Error) × W
  unlocked ns n x = (x.0, c.unlock (lock_name c ns n) x.1)

  calls-ended : (k : ℕ) (x : Outcome Bool × W) → calls k (at_end x) ≡ at_end x
  unfolding advance
  calls-ended zero x = refl
  calls-ended (suc k) x = calls-ended k x

  calls-marking :
      (k : ℕ) (obj : Obj String) (x : Outcome (Option Error) × W)
      → calls (suc (suc k)) (marking obj x.0, x.1) ≡ at_end (marked obj x)
  unfolding advance
  calls-marking k obj x = calls-ended k (marked obj x)

  calls-handled :
      (k : ℕ) (key : String) (x : Outcome (Option Error) × W)
      → calls (suc (suc (suc k))) (handled key x.0, x.1) ≡ at_end (finished key x)
  unfolding advance
  calls-handled k key x =
      calls-marking k (expected key) (((λ v. (x.0, v)) >>= finish_item c key) x.1)

  calls-releasing :
      (k : ℕ) (key ns n : String) (x : Outcome (Option Error) × W)
      → calls (suc (suc (suc (suc k)))) (releasing key ns n x.0, x.1)
        ≡ at_end (finished key (unlocked ns n x))
  unfolding advance
  calls-releasing k key ns n x = calls-handled k key (unlocked ns n x)

  calls-synced :
      (k : ℕ) (key ns n : String) (hr : HelmRelease) (x : Outcome (Option Error) × W)
      → calls (suc (suc (suc (suc (suc k))))) (on_sync c key ns n hr x)
        ≡ at_end (finished key (unlocked ns n (((λ v. (x.0, v)) >>= recorded c hr) x.1)))
  unfolding advance
  calls-synced k key ns n hr (returned e, w) =
      calls-releasing k key ns n (returned none, c.event hr (reason_of c e) w)
  calls-synced k key ns n hr (panicked, w) = calls-releasing (suc k) key ns n (panicked, w)

  calls-found :
      (k : ℕ) (key ns n : String) (x : Result HelmRelease × W)
      → calls (suc (suc (suc (suc (suc (suc k)))))) (on_resource c key ns n x)
        ≡ at_end (finished key (unlocked ns n (sync_found c x)))
  unfolding advance
  calls-found k key ns n (ok hr, w) = calls-synced k key ns n hr (c.sync hr w)
  calls-found k key ns n (err e, w) = elim (Bool-cases (is_not_found e)) [
    | inl h ↦ rw h (calls-releasing (suc (suc k)) key ns n (returned none, c.handle_error w))
    | inr h ↦ rw h (calls-releasing (suc (suc k)) key ns n (returned (some e), w))
  ]

  calls-locked :
      (k : ℕ) (key ns n : String) (x : Option Error × W)
      → calls (suc (suc (suc (suc (suc (suc (suc k))))))) (on_lock c key ns n x)
        ≡ at_end (finished key (sync_locked c ns n x))
  unfolding advance
  calls-locked k key ns n (none, w) = calls-found k key ns n (c.get ns n w)
  calls-locked k key ns n (some e, w) =
      calls-handled (suc (suc (suc (suc k)))) key (returned none, w)

  calls-keyed :
      (k : ℕ) (key : String) (r : Result (String × String)) (w : W)
      → calls (suc (suc (suc (suc (suc (suc (suc (suc k)))))))) (on_key c key r w)
        ≡ at_end (finished key (sync_split c r w))
  unfolding advance
  calls-keyed k key (ok (ns, n)) w = calls-locked k key ns n (c.lock (lock_name c ns n) w)
  calls-keyed k key (err e) w =
      calls-handled (suc (suc (suc (suc (suc k))))) key (returned none, c.handle_error w)

  calls-taken : (x : (Obj String × Bool) × W) → calls 9 (on_item c x) ≡ at_end (process_got c x)
  unfolding advance sync_handler
  calls-taken ((obj, true), w) = calls-ended 9 (returned false, w)
  calls-taken ((invalid, false), w) =
      calls-marking 6 invalid (returned none, c.handle_error (c.queue_forget invalid w))
  calls-taken ((expected key, false), w) = calls-keyed 0 key (c.split_key key) w

  -- Ten calls take a worker that runs by itself through an item, to the outcome and the world of
  -- `process_next_work_item`.
  advance-process_next_work_item :
      (w : W)
      → calls 10 (ready, w) ≡ (ended (process_next_work_item c w).0, (process_next_work_item c w).1)
  unfolding advance process_next_work_item
  advance-process_next_work_item w =
      let n = c.queue_len w in calls-taken (c.queue_get (c.set_queue_length n.0 n.1))
