-- ===== src/Operator/Handlers.antt =====
-- The handlers of events (`AddFunc`, `DeleteFunc`, `enqueueUpdateJob` in
-- pkg/operator/operator.go).
use helm_operator.Base.{Bool, if◌then◌else◌, negsuc, none, not, pos, str_eq, ◌&&◌}
use helm_operator.Api.{HelmRelease}
use helm_operator.Kube.{Kube}
use helm_operator.Effects.{ok, err, M, returned, ◌>>=◌}
use helm_operator.Status.{observe_release_conditions, run_gauge}
use helm_operator.Operator.Calls.{Controller, Obj, expected, invalid}

module _ {W : Type 0} (c : Controller W) where
  -- `enqueueJob`, and `getCacheKey` in it
  unfoldable pub enqueue_job : HelmRelease → W → W
  enqueue_job hr w = elim (c.key_of hr) [
    | err _ ↦ c.handle_error w
    | ok key ↦ let (n, w₁) = c.queue_len (c.add_rate_limited key w) in c.set_queue_length n w₁
  ]

  -- An update that changes the status and not the specification.
  abbrev pub status_only : HelmRelease → HelmRelease → Bool
  status_only old new =
      str_eq (c.diff_spec old.spec new.spec) ""
      && not (str_eq (c.diff_status old.status new.status) "")

  abbrev pub synced_mirror : HelmRelease → HelmRelease → W → W
  synced_mirror old new w =
      if str_eq (c.diff_chart_source old.spec.chart_source new.spec.chart_source) ""
      then w
      else c.sync_mirror new w

  -- `enqueueUpdateJob`
  unfoldable pub enqueue_update_job : Obj HelmRelease → Obj HelmRelease → W → W
  unfolding enqueue_job
  enqueue_update_job invalid new w = w
  enqueue_update_job (expected old) invalid w = w
  enqueue_update_job (expected old) (expected new) w =
      if status_only old new then w else enqueue_job new (synced_mirror old new w)

  unfoldable pub add_func : Obj HelmRelease → W → W
  unfolding enqueue_job
  add_func invalid w = w
  add_func (expected hr) w = enqueue_job hr (c.add_releases (pos 1) w)

  unfoldable pub delete_func : Kube W → Obj HelmRelease → M W (Unit {0})
  delete_func kube invalid w = (returned tt, w)
  delete_func kube (expected hr) w =
      (c.uninstall hr >>= λ _ v.
      (returned tt, run_gauge kube (observe_release_conditions hr none) v))
        (c.add_releases (negsuc 0) w)
