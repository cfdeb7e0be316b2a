-- ===== src/Operator/Locks.antt =====
-- The lock files of the workers (`lock` in pkg/operator/operator.go), under their documented behaviour:
-- while a lock file is held, nobody else obtains it.
use helm_operator.Base.{
  List, Option, String, [], arith, if◌then◌else◌, none, refl, some, str_eq, ℕ, ◌++◌, ◌+◌, ◌∷◌, ◌≡◌,
  ◌≢◌, ◌≤◌, ℤ, suc, zero,
}
use helm_operator.Api.{HelmRelease}
use helm_operator.Errors.{Error}
use helm_operator.Kube.{Kube, GaugeOp}
use helm_operator.Operator.Calls.{Controller, Obj, EventReason}
use helm_operator.Operator.Queue.{lock_name}
use helm_operator.Operator.Turns.{Stage, reading, syncing, recording, releasing, started_workers}

-- `held n w` is 1 where the lock file `n` is held in the world `w`, and 0 where it is not. No call but
-- that of the lock and of its release changes it.
pub record LockFiles {W : Type 0} (c : Controller W) (kube : Kube W) (held : String → W → ℕ)
    : Type 0 where
  pub obtained :
      (n : String) (w : W) → (c.lock n w).0 ≡ none → (held n w ≡ 0) × (held n (c.lock n w).1 ≡ 1)
  pub refused :
      (n m : String) (w : W) (e : Error)
      → (c.lock n w).0 ≡ some e
      → held m (c.lock n w).1 ≡ held m w
  pub lock_other : (n m : String) (w : W) → n ≢ m → held m (c.lock n w).1 ≡ held m w
  pub unlock_other : (n m : String) (w : W) → n ≢ m → held m (c.unlock n w) ≡ held m w
  pub one : (n : String) (w : W) → held n w ≤ 1
  pub len : (m : String) (w : W) → held m (c.queue_len w).1 ≡ held m w
  pub got : (m : String) (w : W) → held m (c.queue_get w).1 ≡ held m w
  pub done : (m : String) (o : Obj String) (w : W) → held m (c.queue_done o w) ≡ held m w
  pub forget : (m : String) (o : Obj String) (w : W) → held m (c.queue_forget o w) ≡ held m w
  pub limited : (m key : String) (w : W) → held m (c.add_rate_limited key w) ≡ held m w
  pub gauge : (m : String) (k : ℕ) (w : W) → held m (c.set_queue_length k w) ≡ held m w
  pub releases : (m : String) (i : ℤ) (w : W) → held m (c.add_releases i w) ≡ held m w
  pub failed : (m : String) (w : W) → held m (c.handle_error w) ≡ held m w
  pub listed : (m ns n : String) (w : W) → held m (c.get ns n w).1 ≡ held m w
  pub event :
      (m : String) (hr : HelmRelease) (r : EventReason) (w : W) → held m (c.event hr r w) ≡ held m w
  pub mirror : (m : String) (hr : HelmRelease) (w : W) → held m (c.sync_mirror hr w) ≡ held m w
  pub uninstalled : (m : String) (hr : HelmRelease) (w : W) → held m (c.uninstall hr w).1 ≡ held m w
  pub conditions : (m : String) (op : GaugeOp) (w : W) → held m (kube.gauge op w) ≡ held m w
  pub sync : (m : String) (hr : HelmRelease) (w : W) → held m (c.sync hr w).1 ≡ held m w

module _ {W : Type 0} (c : Controller W) where
  -- The lock that a worker holds, if any: from `lock` to `unlock`.
  abbrev pub lock_of : Stage → Option String
  lock_of (reading _ ns n) = some (lock_name c ns n)
  lock_of (syncing _ ns n _) = some (lock_name c ns n)
  lock_of (recording _ ns n _ _) = some (lock_name c ns n)
  lock_of (releasing _ ns n _) = some (lock_name c ns n)
  lock_of p = none

  abbrev pub is_of : String → Option String → ℕ
  is_of m none = 0
  is_of m (some n) = if str_eq n m then 1 else 0

  -- How many workers are between `lock` and `unlock` of a lock file.
  abbrev pub holders : String → List Stage → ℕ
  holders m [] = 0
  holders m (p ∷ ps) = is_of m (lock_of p) + holders m ps

  pub holders-++ :
      (m : String) (ps qs : List Stage) → holders m (ps ++ qs) ≡ holders m ps + holders m qs
  holders-++ m [] qs = omega arith
  holders-++ m (p ∷ ps) qs = omega (arith, holders-++ m ps qs)

  pub holders-started_workers : (m : String) (k : ℕ) → holders m (started_workers k) ≡ 0
  holders-started_workers m zero = refl
  holders-started_workers m (suc k) = omega (arith, holders-started_workers m k)
