-- ===== src/Operator/Updates.antt =====
-- Which updates are genuine (`enqueueUpdateJob`, pkg/operator/operator.go), under the documented
-- behaviour of `cmp.Diff`: its report is empty exactly where the values are equal.
use helm_operator.Base.{
  Bool-cases, String, ap, arith, false, if◌then◌else◌, inl, inr, str_eq, str_eq_iff, true, ◌↔◌, ◌≡◌,
  ◌≢◌, ◌⊎◌,
}
use helm_operator.Api.{HelmRelease}
use helm_operator.Operator.Calls.{Controller, expected}
use helm_operator.Operator.Handlers.{enqueue_update_job, enqueue_job, status_only, synced_mirror}

abbrev pub Reports {ℓ} : {A : Type ℓ} → (A → A → String) → A → A → Type ℓ
Reports diff a b = (diff a b ≡ "") ↔ (a ≡ b)

-- The specification is updated, or nothing is, as in a periodic refresh.
abbrev pub IsGenuine : HelmRelease → HelmRelease → Type 0
IsGenuine old new = (old.spec ≢ new.spec) ⊎ (old.status ≡ new.status)

is_reported : (a : String) → a ≢ "" → str_eq a "" ≡ false
is_reported a h = elim (Bool-cases (str_eq a "")) [
  | inl e ↦ absurd (h ((str_eq_iff a "").0 e))
  | inr e ↦ e
]

module _ {W : Type 0} (c : Controller W) (old new : HelmRelease)
    (spec : Reports c.diff_spec old.spec new.spec)
    (status : Reports c.diff_status old.status new.status) where
  genuine_status_only : IsGenuine old new → status_only c old new ≡ false
  genuine_status_only (inl h) =
      let e = is_reported (c.diff_spec old.spec new.spec) (λ d. h (spec.0 d)) in ground arith
  genuine_status_only (inr h) =
      let e = (str_eq_iff (c.diff_status old.status new.status) "").1 (status.1 h) in ground arith

  -- An update of the specification and a periodic refresh are queued, once the mirror has been
  -- synced where the source of the chart differs.
  update_enqueued :
      (w : W)
      → IsGenuine old new
      → enqueue_update_job c (expected old) (expected new) w
        ≡ enqueue_job c new (synced_mirror c old new w)
  unfolding enqueue_update_job
  update_enqueued w g =
      ap (λ b. if b then w else enqueue_job c new (synced_mirror c old new w))
        (genuine_status_only g)

  -- An update of the status alone does nothing.
  status_update_ignored :
      (w : W)
      → old.spec ≡ new.spec
      → old.status ≢ new.status
      → enqueue_update_job c (expected old) (expected new) w ≡ w
  unfolding enqueue_update_job
  status_update_ignored w h d =
      let e = (str_eq_iff (c.diff_spec old.spec new.spec) "").1 (spec.1 h) in
      let f = is_reported (c.diff_status old.status new.status) (λ x. d (status.0 x)) in
      let both : status_only c old new ≡ true = ground arith in
      ap (λ b. if b then w else enqueue_job c new (synced_mirror c old new w)) both
