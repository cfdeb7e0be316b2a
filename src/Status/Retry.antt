-- ===== src/Status/Retry.antt =====
-- The retried updates (pkg/status/conditions.go, pkg/status/status.go), under the documented
-- behaviour of `retry.RetryOnConflict`: it runs the closure, and again after a conflict only, a
-- bounded number of times, and returns what the last run returned.
use helm_operator.Base.{
  Bool, Option, String, ap, false, none, refl, some, suc, true, zero, ℕ, ◌∙◌, ◌≡◌,
}
use helm_operator.Api.{HelmRelease}
use helm_operator.Errors.{Error, is_conflict}
use helm_operator.Kube.{Attempt, Kube}
use helm_operator.Status.Update.{update, Change, report, attempt}
use helm_operator.Effects.{Result, err, error_of, ok}

-- A failed run that may be tried again.
abbrev pub conflicted : Option Error → Bool
conflicted none = false
conflicted (some e) = is_conflict e

module _ {W : Type 0} where
  -- One run of the closure, and `n` more at most.
  unfoldable pub retries :
      ℕ → (Attempt W → Option Error × Attempt W) → Attempt W → Option Error × Attempt W
  retries zero fn a = fn a
  retries (suc n) fn a =
      let (e, a') = fn a in elim (conflicted e) [ true ↦ retries n fn a' | false ↦ (e, a') ]

  abbrev pub RetriesConflicts : Kube W → ℕ → Type 0
  RetriesConflicts kube n =
      (fn : Attempt W → Option Error × Attempt W) (a : Attempt W)
      → kube.retry_on_conflict fn a ≡ retries n fn a

module _ {W : Type 0} (fn : Attempt W → Option Error × Attempt W) where
  retries_done : (n : ℕ) (a : Attempt W) → conflicted (fn a).0 ≡ false → retries n fn a ≡ fn a
  unfolding retries
  retries_done zero a h = refl
  retries_done (suc n) a h = rw (h, retries)

  retries_again :
      (n : ℕ) (a : Attempt W)
      → conflicted (fn a).0 ≡ true
      → retries (suc n) fn a ≡ retries n fn (fn a).1
  unfolding retries
  retries_again n a h = rw (h, retries)

module _ {W : Type 0} (kube : Kube W) (gauged : Bool) (ns : String) (change : Change) where
  idle_attempt :
      (hr : HelmRelease) (w : W)
      → change hr ≡ none
      → attempt kube gauged ns change (record { world = w; hr = hr; first_try = true })
        ≡ (none, record { world = w; hr = hr; first_try = true })
  unfolding attempt
  idle_attempt hr w h = rw h

  first_attempt :
      (hr new : HelmRelease) (r : Result HelmRelease) (w w₁ : W)
      → change hr ≡ some new
      → kube.update_status ns new (report kube gauged hr new w) ≡ (r, w₁)
      → attempt kube gauged ns change (record { world = w; hr = hr; first_try = true })
        ≡ (error_of r, record { world = w₁; hr = hr; first_try = false })
  unfolding attempt
  first_attempt hr new r w w₁ h u = rw (h, u)

  later_attempt :
      (hr fresh new : HelmRelease) (r : Result HelmRelease) (w w₁ w₂ : W)
      → kube.get ns hr.name w ≡ (ok fresh, w₁)
      → change fresh ≡ some new
      → kube.update_status ns new (report kube gauged fresh new w₁) ≡ (r, w₂)
      → attempt kube gauged ns change (record { world = w; hr = hr; first_try = false })
        ≡ (error_of r, record { world = w₂; hr = fresh; first_try = false })
  unfolding attempt
  later_attempt hr fresh new r w w₁ w₂ g h u = rw (g, h, u)

module _ {W : Type 0} (kube : Kube W) (n : ℕ) (law : RetriesConflicts kube (suc n)) where
  -- An update that meets one conflict reads the resource again and writes its change of the fresh
  -- copy, reporting that change to the gauge where it reports at all; it succeeds if that write
  -- does. What another client wrote in between is not overwritten by the stale copy.
  pub update_after_conflict :
      (gauged : Bool) (ns : String) (change : Change) (hr new fresh next saved : HelmRelease)
      (e : Error) (w w₁ w₂ w₃ : W)
      → change hr ≡ some new
      → kube.update_status ns new (report kube gauged hr new w) ≡ (err e, w₁)
      → is_conflict e ≡ true
      → kube.get ns hr.name w₁ ≡ (ok fresh, w₂)
      → change fresh ≡ some next
      → kube.update_status ns next (report kube gauged fresh next w₂) ≡ (ok saved, w₃)
      → update kube gauged ns change hr w ≡ (none, w₃)
  unfolding update
  update_after_conflict gauged ns change hr new fresh next saved e w w₁ w₂ w₃ h₁ u₁ c g h₂ u₂ =
      let fn = attempt kube gauged ns change in
      let start : Attempt W = record { world = w; hr = hr; first_try = true } in
      let one = first_attempt kube gauged ns change hr new (err e) w w₁ h₁ u₁ in
      let two = later_attempt kube gauged ns change hr fresh next (ok saved) w₁ w₂ w₃ g h₂ u₂ in
      let again : retries (suc n) fn start ≡ retries n fn (fn start).1 =
        retries_again fn n start (ap (λ p. conflicted p.0) one ∙ c) in
      let done =
        retries_done fn n (record { world = w₁; hr = hr; first_try = false })
          (ap (λ p. conflicted p.0) two) in
      let run : kube.retry_on_conflict fn start
          ≡ (none, record { world = w₃; hr = fresh; first_try = false }) =
        law fn start ∙ (again ∙ (ap (λ p. retries n fn p.1) one ∙ (done ∙ two))) in
      ap (λ p. (p.0, p.1.world)) run

  update_settled :
      (gauged : Bool) (ns : String) (change : Change) (hr : HelmRelease) (w : W) (e : Option Error)
      (a : Attempt W)
      → attempt kube gauged ns change (record { world = w; hr = hr; first_try = true }) ≡ (e, a)
      → conflicted e ≡ false
      → update kube gauged ns change hr w ≡ (e, a.world)
  unfolding update
  update_settled gauged ns change hr w e a one c =
      let fn = attempt kube gauged ns change in
      let start : Attempt W = record { world = w; hr = hr; first_try = true } in
      ap (λ p. (p.0, p.1.world))
        (law fn start ∙ retries_done fn (suc n) start (ap (λ q. conflicted q.0) one ∙ c) ∙ one)

  -- An update with nothing to change calls nothing and succeeds.
  pub update_unchanged :
      (gauged : Bool) (ns : String) (change : Change) (hr : HelmRelease) (w : W)
      → change hr ≡ none
      → update kube gauged ns change hr w ≡ (none, w)
  update_unchanged gauged ns change hr w h =
      update_settled gauged ns change hr w none (record { world = w; hr = hr; first_try = true })
        (idle_attempt kube gauged ns change hr w h) refl

  -- A first write that is accepted, or refused for another reason than a conflict, is the only one,
  -- and its error is returned.
  pub update_without_conflict :
      (gauged : Bool) (ns : String) (change : Change) (hr new : HelmRelease)
      (r : Result HelmRelease) (w w₁ : W)
      → change hr ≡ some new
      → kube.update_status ns new (report kube gauged hr new w) ≡ (r, w₁)
      → conflicted (error_of r) ≡ false
      → update kube gauged ns change hr w ≡ (error_of r, w₁)
  update_without_conflict gauged ns change hr new r w w₁ h u =
      update_settled gauged ns change hr w (error_of r)
        (record { world = w₁; hr = hr; first_try = false })
        (first_attempt kube gauged ns change hr new r w w₁ h u)
