-- ===== src/Updater/Quiet.antt =====
-- Resources whose status is recorded already (`Updater.Loop`, pkg/status/status.go).
use helm_operator.Base.{List, [], ap, false, none, refl, some, str_eq_iff, suc, ℕ, ◌∙◌, ◌∷◌, ◌≡◌}
use helm_operator.Api.{HelmRelease, get_release_name, get_target_namespace, get_helm_version}
use helm_operator.Errors.{Error}
use helm_operator.Effects.{Result, ok, err}
use helm_operator.Helm.{Client, Status, status_string}
use helm_operator.Release.{load}
use helm_operator.Status.{release_status_change, set_release_status}
use helm_operator.Status.Retry.{RetriesConflicts, update_unchanged}
use helm_operator.Updater.Loop.{Updater, update_one, update_each, ask_client, record_status}

module _ {W : Type 0} (u : Updater W) where
  -- The world after a client has been asked for the status of the release.
  abbrev pub Asked : HelmRelease → W → Result Status → W → Type 0
  Asked hr w r w₁ =
      (c : Client W) × (load u.clients (get_helm_version hr u.default_helm_version) ≡ some c)
      × (c.status (get_release_name hr)
            (record { namespace = get_target_namespace hr; version = 0 }) w
          ≡ (r, w₁))

  -- A list of resources and the world after questions only: each has no client, or no status is told
  -- of it, or the name and the status that are told are recorded already.
  pub data UpToDate : List HelmRelease → W → W → Type 0 where
    none_left : {w : W} → UpToDate [] w w
    no_client :
        {hr : HelmRelease} {hrs : List HelmRelease} {w w₁ : W}
        → load u.clients (get_helm_version hr u.default_helm_version) ≡ none
        → UpToDate hrs w w₁
        → UpToDate (hr ∷ hrs) w w₁
    no_status :
        {hr : HelmRelease} {hrs : List HelmRelease} {e : Error} {w w₁ w₂ : W}
        → Asked hr w (err e) w₁
        → UpToDate hrs w₁ w₂
        → UpToDate (hr ∷ hrs) w w₂
    same_status :
        {hr : HelmRelease} {hrs : List HelmRelease} {s : Status} {w w₁ w₂ : W}
        → Asked hr w (ok s) w₁
        → hr.status.release_name ≡ get_release_name hr
        → hr.status.release_status ≡ status_string s
        → UpToDate hrs w₁ w₂
        → UpToDate (hr ∷ hrs) w w₂

  asked :
      (hr : HelmRelease) (w w₁ : W) (r : Result Status)
      → Asked hr w r w₁
      → update_one u hr w ≡ record_status u hr (r, w₁)
  unfolding update_one
  asked hr w w₁ r (c, l, s) = ap (λ o. ask_client u hr o w) l ∙ ap (record_status u hr) s

  module _ (n : ℕ) (law : RetriesConflicts u.kube (suc n)) where
    unchanged :
        (hr : HelmRelease) (s : Status) (w : W)
        → hr.status.release_name ≡ get_release_name hr
        → hr.status.release_status ≡ status_string s
        → record_status u hr (ok s, w) ≡ w
    unfolding set_release_status release_status_change
    unchanged hr s w a b =
        ap (λ x. x.1)
          (update_unchanged u.kube n law false hr.namespace
            (release_status_change (get_release_name hr) (status_string s)) hr w
            (rw ((str_eq_iff _ _).1 a, (str_eq_iff _ _).1 b) refl))

    -- Over resources whose status is recorded already, the loop asks the clients and writes nothing.
    pub update_each-UpToDate :
        (hrs : List HelmRelease) (w w₁ : W) → UpToDate hrs w w₁ → update_each u hrs w ≡ w₁
    unfolding update_each update_one
    update_each-UpToDate _ _ _ none_left = refl
    update_each-UpToDate (hr ∷ hrs) w w₁ (no_client h r) =
        ap (λ o. update_each u hrs (ask_client u hr o w)) h ∙ update_each-UpToDate hrs w w₁ r
    update_each-UpToDate (hr ∷ hrs) w w₂ (no_status {e = e} {w₁ = w₁} h r) =
        ap (update_each u hrs) (asked hr w w₁ (err e) h) ∙ update_each-UpToDate hrs w₁ w₂ r
    update_each-UpToDate (hr ∷ hrs) w w₂ (same_status {s = s} {w₁ = w₁} h a b r) =
        ap (update_each u hrs) (asked hr w w₁ (ok s) h ∙ unchanged hr s w₁ a b)
        ∙ update_each-UpToDate hrs w₁ w₂ r
