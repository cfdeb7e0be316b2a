-- ===== src/Operator/Bystanders.antt =====
-- The handlers of events leave the lock files as they are (pkg/operator/operator.go).
use helm_operator.Base.{
  Bool-cases, Option, String, inl, inr, none, refl, str_eq, ℕ, ◌∷◌, ◌∙◌, ◌≡◌, pos, List, negsuc, [],
}
use helm_operator.Api.{HelmRelease}
use helm_operator.Errors.{Error}
use helm_operator.Effects.{Result, ok, err, Outcome, returned, panicked, ◌>>=◌}
use helm_operator.Kube.{Kube, GaugeOp}
use helm_operator.Status.{run_gauge, observe_release_conditions}
use helm_operator.Operator.Calls.{Controller, Obj, expected, invalid}
use helm_operator.Operator.Locks.{LockFiles}
use helm_operator.Operator.Handlers.{
  enqueue_job, add_func, delete_func, synced_mirror, enqueue_update_job, status_only,
}

module _ {W : Type 0} (c : Controller W) (kube : Kube W) (held : String → W → ℕ)
    (laws : LockFiles c kube held) where
  enqueued-held : (m : String) (hr : HelmRelease) (w : W) → held m (enqueue_job c hr w) ≡ held m w
  unfolding enqueue_job
  enqueued-held m hr w = keyed (c.key_of hr)
    where
      keyed :
          (r : Result String)
          → held m (elim r [
            | err _ ↦ c.handle_error w
            | ok key ↦
                let (n, w₁) = c.queue_len (c.add_rate_limited key w) in c.set_queue_length n w₁
          ])
            ≡ held m w
      keyed (err _) = laws.failed m w
      keyed (ok key) =
          let n = c.queue_len (c.add_rate_limited key w) in
          laws.gauge m n.0 n.1 ∙ laws.len m (c.add_rate_limited key w) ∙ laws.limited m key w

  pub added-held :
      (m : String) (obj : Obj HelmRelease) (w : W) → held m (add_func c obj w) ≡ held m w
  unfolding add_func
  added-held m invalid w = refl
  added-held m (expected hr) w =
      enqueued-held m hr (c.add_releases (pos 1) w) ∙ laws.releases m (pos 1) w

  mirrored-held :
      (m : String) (old new : HelmRelease) (w : W) → held m (synced_mirror c old new w) ≡ held m w
  mirrored-held m old new w =
      let same = str_eq (c.diff_chart_source old.spec.chart_source new.spec.chart_source) "" in
      elim (Bool-cases same) [ inl t ↦ rw t refl | inr f ↦ rw f (laws.mirror m new w) ]

  pub updated-held :
      (m : String) (old new : Obj HelmRelease) (w : W)
      → held m (enqueue_update_job c old new w) ≡ held m w
  unfolding enqueue_update_job
  updated-held m invalid new w = refl
  updated-held m (expected old) invalid w = refl
  updated-held m (expected old) (expected new) w = elim (Bool-cases (status_only c old new)) [
    | inl t ↦ rw t refl
    | inr f ↦ rw f (enqueued-held m new (synced_mirror c old new w) ∙ mirrored-held m old new w)
  ]

  gauged-held : (m : String) (ops : List GaugeOp) (w : W) → held m (run_gauge kube ops w) ≡ held m w
  gauged-held m [] w = refl
  gauged-held m (op ∷ ops) w = gauged-held m ops (kube.gauge op w) ∙ laws.conditions m op w

  after_uninstall-held :
      (m : String) (hr : HelmRelease) (o : Outcome (Option Error)) (w : W)
      → held m
          (((λ v. (o, v)) >>= λ _ v.
              (returned (tt {0}), run_gauge kube (observe_release_conditions hr none) v))
            w).1
        ≡ held m w
  after_uninstall-held m hr (returned e) w = gauged-held m (observe_release_conditions hr none) w
  after_uninstall-held m hr panicked w = refl

  pub deleted-held :
      (m : String) (obj : Obj HelmRelease) (w : W) → held m (delete_func c kube obj w).1 ≡ held m w
  unfolding delete_func
  deleted-held m invalid w = refl
  deleted-held m (expected hr) w =
      let v = c.add_releases (negsuc 0) w in
      let x = c.uninstall hr v in
      after_uninstall-held m hr x.0 x.1 ∙ laws.uninstalled m hr v ∙ laws.releases m (negsuc 0) w
