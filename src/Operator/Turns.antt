-- ===== src/Operator/Turns.antt =====
-- The workers side by side (`Run`, `runWorker` and, call by call, `processNextWorkItem` and
-- `syncHandler` in pkg/operator/operator.go).
use helm_operator.Base.{
  Bool, List, Option, String, [], false, if◌then◌else◌, none, some, true, ℕ, ◌++◌, ◌∷◌, ◌≡◌, suc,
  zero,
}
use helm_operator.Api.{HelmRelease}
use helm_operator.Errors.{Error, is_not_found}
use helm_operator.Effects.{Result, ok, err, Outcome, returned, panicked, ◌>>=◌}
use helm_operator.Operator.Calls.{Controller, Obj, expected, invalid}
use helm_operator.Operator.Queue.{lock_name, reason_of, finish_item, report_error}
use helm_operator.Operator.Handlers.{add_func, enqueue_update_job, delete_func}
use helm_operator.Kube.{Kube}

-- Where a worker is: the call that it makes next, with what it knows by then.
pub data Stage : Type 0 where
  ready : Stage
  taken : Obj String → Stage
  locking reading : String → String → String → Stage
  syncing : String → String → String → HelmRelease → Stage
  recording : String → String → String → HelmRelease → Option Error → Stage
  releasing : String → String → String → Outcome (Option Error) → Stage
  handled : String → Outcome (Option Error) → Stage
  marking : Obj String → Outcome (Option Error) → Stage
  reporting : Outcome (Option Error) → Stage
  ended : Outcome Bool → Stage

module _ {W : Type 0} (c : Controller W) where
  abbrev pub on_item : (Obj String × Bool) × W → Stage × W
  on_item ((_, true), w) = (ended (returned false), w)
  on_item ((obj, false), w) = (taken obj, w)

  abbrev pub on_key : String → Result (String × String) → W → Stage × W
  on_key key (err _) w = (handled key (returned none), c.handle_error w)
  on_key key (ok (namespace, name)) w = (locking key namespace name, w)

  abbrev pub on_lock : String → String → String → Option Error × W → Stage × W
  on_lock key namespace name (some _, w) = (handled key (returned none), w)
  on_lock key namespace name (none, w) = (reading key namespace name, w)

  abbrev pub on_resource : String → String → String → Result HelmRelease × W → Stage × W
  on_resource key namespace name (err e, w) =
      if is_not_found e
      then (releasing key namespace name (returned none), c.handle_error w)
      else (releasing key namespace name (returned (some e)), w)
  on_resource key namespace name (ok hr, w) = (syncing key namespace name hr, w)

  abbrev pub on_sync :
      String → String → String → HelmRelease → Outcome (Option Error) × W → Stage × W
  on_sync key namespace name hr (returned e, w) = (recording key namespace name hr e, w)
  on_sync key namespace name hr (panicked, w) = (releasing key namespace name panicked, w)

  -- The next call of a worker; a panic runs the deferred calls.
  unfoldable pub advance : Stage → W → Stage × W
  advance ready w = let (n, w₁) = c.queue_len w in on_item (c.queue_get (c.set_queue_length n w₁))
  advance (taken invalid) w =
      (marking invalid (returned none), c.handle_error (c.queue_forget invalid w))
  advance (taken (expected key)) w = on_key key (c.split_key key) w
  advance (locking key namespace name) w =
      on_lock key namespace name (c.lock (lock_name c namespace name) w)
  advance (reading key namespace name) w = on_resource key namespace name (c.get namespace name w)
  advance (syncing key namespace name hr) w = on_sync key namespace name hr (c.sync hr w)
  advance (recording key namespace name hr e) w =
      (releasing key namespace name (returned none), c.event hr (reason_of c e) w)
  advance (releasing key namespace name o) w =
      (handled key o, c.unlock (lock_name c namespace name) w)
  advance (handled key o) w =
      let x = ((λ v. (o, v)) >>= finish_item c key) w in (marking (expected key) x.0, x.1)
  advance (marking obj o) w = (reporting o, c.queue_done obj w)
  advance (reporting o) w = let x = ((λ v. (o, v)) >>= report_error c) w in (ended x.0, x.1)
  advance (ended o) w = (ended o, w)

  -- The loop of `runWorker` starts again where an item was processed.
  unfoldable pub go_on : Stage → Stage
  go_on (ended (returned true)) = ready
  go_on p = p

-- The goroutines of `Run`
abbrev pub started_workers : ℕ → List Stage
started_workers zero = []
started_workers (suc threadiness) = ready ∷ started_workers threadiness

pub record Workers (W : Type 0) : Type 0 where
  pub world : W
  pub stages : List Stage

-- Workers and the handlers of events take turns in any order.
pub data Turn {W : Type 0} (c : Controller W) (kube : Kube W) (s : Workers W)
    : Workers W → Type 0 where
  worked :
      (before after : List Stage) (p : Stage)
      → s.stages ≡ before ++ (p ∷ after)
      → Turn c kube s (record {
        world = (advance c (go_on c p) s.world).1;
        stages = before ++ ((advance c (go_on c p) s.world).0 ∷ after);
      })
  added : (obj : Obj HelmRelease) → Turn c kube s (record s { world = add_func c obj s.world })
  updated :
      (old new : Obj HelmRelease)
      → Turn c kube s (record s { world = enqueue_update_job c old new s.world })
  -- No lock is taken for a deletion.
  deleted :
      (obj : Obj HelmRelease)
      → Turn c kube s (record s { world = (delete_func c kube obj s.world).1 })

-- What `Run` with a number of workers comes to from a world.
pub data Runs {W : Type 0} (c : Controller W) (kube : Kube W) (threadiness : ℕ) (w : W)
    : Workers W → Type 0 where
  starting : Runs c kube threadiness w (record { world = w; stages = started_workers threadiness })
  after_turn :
      {s t : Workers W}
      → Runs c kube threadiness w s
      → Turn c kube s t
      → Runs c kube threadiness w t
