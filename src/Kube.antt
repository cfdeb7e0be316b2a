-- ===== src/Kube.antt =====
-- What the operator calls of Kubernetes, of the clock and of the metrics registry. None of it is
-- defined in the repository, so it is a parameter of the model.
use helm_operator.Base.{ℕ, Bool, String, Option, ℤ}
use helm_operator.Api.{HelmRelease}
use helm_operator.Errors.{Error}
use helm_operator.Effects.{Result, Call}

-- The variables that a retried closure captures.
pub record Attempt (W : Type 0) : Type 0 where
  pub world : W
  pub hr : HelmRelease
  pub first_try : Bool

-- An operation on the gauge of release conditions; the labels are the target namespace, the name
-- of the release and the type of the condition.
pub data GaugeOp : Type 0 where
  set : String → String → String → ℤ → GaugeOp
  delete : String → String → String → GaugeOp

pub record Kube (W : Type 0) : Type 0 where
  -- `HelmReleases(namespace).Get(name)` and `.UpdateStatus(hr)`
  pub get : String → String → Call W (Result HelmRelease)
  pub update_status : String → HelmRelease → Call W (Result HelmRelease)
  -- `retry.RetryOnConflict(retry.DefaultBackoff, fn)`
  pub retry_on_conflict :
      (Attempt W → Option Error × Attempt W) → Attempt W → Option Error × Attempt W
  -- `Clock.Now()`
  pub now : W → ℕ
  pub gauge : GaugeOp → W → W
