-- ===== src/Operator/Calls.antt =====
-- What the controller calls (the fields of `Controller` in pkg/operator/operator.go): the work
-- queue, the lister, the lock files and the recorder of events.
use helm_operator.Base.{Bool, Option, String, ℕ, ℤ}
use helm_operator.Api.{HelmRelease, HelmReleaseSpec, HelmReleaseStatus, ChartSource}
use helm_operator.Errors.{Error}
use helm_operator.Effects.{Result, Call, M}

-- What informers hand over, and what comes off the queue: the expected type or another.
pub data Obj (A : Type 0) : Type 0 where
  expected : A → Obj A
  invalid : Obj A

-- The type and reason of an event; its message is left out.
pub data EventReason : Type 0 where
  failed_release_sync release_synced : EventReason

pub record Controller (W : Type 0) : Type 0 where
  -- the rate limited work queue
  pub queue_len : Call W ℕ
  pub queue_get : Call W (Obj String × Bool)
  pub queue_done : Obj String → W → W
  pub queue_forget : Obj String → W → W
  pub add_rate_limited : String → W → W
  -- the gauges of the length of the queue and of the number of releases
  pub set_queue_length : ℕ → W → W
  pub add_releases : ℤ → W → W
  -- `cache.SplitMetaNamespaceKey`, `cache.MetaNamespaceKeyFunc`, `runtime.HandleError`
  pub split_key : String → Result (String × String)
  pub key_of : HelmRelease → Result String
  pub handle_error : W → W
  -- a lock file by its name, the release of the lock, and the lister
  pub lock : String → Call W (Option Error)
  pub unlock : String → W → W
  pub get : String → String → Call W (Result HelmRelease)
  pub event : HelmRelease → EventReason → W → W
  -- `cmp.Diff`, `gitChartSync.SyncMirror`
  pub diff_spec : HelmReleaseSpec → HelmReleaseSpec → String
  pub diff_status : HelmReleaseStatus → HelmReleaseStatus → String
  pub diff_chart_source : ChartSource → ChartSource → String
  pub sync_mirror : HelmRelease → W → W
  -- `release.Sync`, `release.Uninstall`
  pub sync : HelmRelease → M W (Option Error)
  pub uninstall : HelmRelease → M W (Option Error)
