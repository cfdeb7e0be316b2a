-- ===== src/Status/Update.antt =====
-- The updates of a status, retried on a conflict (pkg/status/conditions.go, pkg/status/status.go).
-- Each update is a closure over `hr` and `firstTry`; a later run starts from a fresh copy.
use helm_operator.Base.{
  Bool, true, false, ◌&&◌, ◌||◌, String, Option, none, some, List, [], ◌∷◌, ◌++◌, ℤ, leb_ℤ, str_eq,
  if◌then◌else◌,
}
use helm_operator.Api.{HelmRelease, HelmReleaseCondition, HelmReleasePhase}
use helm_operator.Errors.{Error}
use helm_operator.Effects.{ok, err, Call, error_of, Result}
use helm_operator.Kube.{Kube, Attempt, GaugeOp}
use helm_operator.Status.Phase.{conditions_for_phase}
use helm_operator.Status.Conditions.{set_all}
use helm_operator.Status.Metrics.{observe_release_conditions}

abbrev pub Setter : Type 0
Setter = HelmRelease → HelmRelease

abbrev pub apply_setters : List Setter → HelmRelease → HelmRelease
apply_setters [] hr = hr
apply_setters (f ∷ fs) hr = apply_setters fs (f hr)

-- What an update makes of the resource, or `none` where there is nothing to write.
abbrev pub Change : Type 0
Change = HelmRelease → Option HelmRelease

-- The copy that `SetConditions` writes.
unfoldable pub conditions_change : List HelmReleaseCondition → List Setter → Change
conditions_change conditions setters hr =
    some (apply_setters setters (record hr { status = set_all hr.status hr.status conditions }))

unfoldable pub release_status_change : String → String → Change
release_status_change release_name release_status hr =
    if str_eq hr.status.release_name release_name && str_eq hr.status.release_status release_status
    then none
    else some (record hr {
      status = record (hr.status) { release_name = release_name; release_status = release_status };
    })

unfoldable pub revision_change : String → Change
revision_change revision hr =
    if str_eq revision "" || str_eq hr.status.revision revision
    then none
    else some (record hr { status = record (hr.status) { revision = revision } })

unfoldable pub generation_change : ℤ → Change
generation_change generation hr =
    if leb_ℤ generation hr.status.observed_generation
    then none
    else some (record hr { status = record (hr.status) { observed_generation = generation } })

abbrev pub set_phase : HelmReleasePhase → Setter
set_phase phase hr = record hr { status = record (hr.status) { phase = phase } }

-- The setter of `SetStatusPhaseWithRevision`.
abbrev pub set_revision : HelmReleasePhase → String → Setter
set_revision HelmReleasePhase.installing revision hr = record hr {
  status = record (hr.status) { last_attempted_revision = revision };
}
set_revision HelmReleasePhase.upgrading revision hr = record hr {
  status = record (hr.status) { last_attempted_revision = revision };
}
set_revision HelmReleasePhase.succeeded revision hr = record hr {
  status = record (hr.status) { revision = revision };
}
set_revision _ revision hr = hr

module _ {W : Type 0} (kube : Kube W) where
  abbrev pub run_gauge : List GaugeOp → W → W
  run_gauge [] w = w
  run_gauge (op ∷ ops) w = run_gauge ops (kube.gauge op w)

  -- Whether the closure reports to the gauge before it writes: only that of `SetConditions` does.
  abbrev pub report : Bool → HelmRelease → HelmRelease → W → W
  report false old new w = w
  report true old new w = run_gauge (observe_release_conditions old (some new)) w

  unfoldable pub write :
      Bool → String → HelmRelease → Option HelmRelease → W → Bool → Option Error × Attempt W
  write gauged ns hr none w first = (none, record { world = w; hr = hr; first_try = first })
  write gauged ns hr (some new) w first =
      let (r, w') = kube.update_status ns new (report gauged hr new w) in
      (error_of r, record { world = w'; hr = hr; first_try = false })

  -- The closure on a fresh copy, if there is one.
  abbrev pub on_fresh :
      Bool → String → Change → Attempt W → Result HelmRelease × W → Option Error × Attempt W
  on_fresh gauged ns change a (ok fresh, w) = write gauged ns fresh (change fresh) w false
  on_fresh gauged ns change a (err e, w) = (some e, record a { world = w })

  -- One run of the closure.
  unfoldable pub attempt : Bool → String → Change → Attempt W → Option Error × Attempt W
  unfolding write
  attempt gauged ns change a =
      if a.first_try
      then write gauged ns a.hr (change a.hr) a.world true
      else on_fresh gauged ns change a (kube.get ns a.hr.name a.world)

  unfoldable pub update : Bool → String → Change → HelmRelease → Call W (Option Error)
  update gauged ns change hr w =
      let (r, a) =
        kube.retry_on_conflict (attempt gauged ns change)
          (record { world = w; hr = hr; first_try = true }) in
      (r, a.world)

  unfoldable pub set_conditions :
      String → HelmRelease → List HelmReleaseCondition → List Setter → Call W (Option Error)
  unfolding update
  set_conditions ns hr conditions setters = update true ns (conditions_change conditions setters) hr

  -- A phase that has no conditions is not recorded.
  abbrev pub record_conditions :
      String
      → HelmRelease
      → HelmReleasePhase
      → List Setter
      → Option (List HelmReleaseCondition)
      → Call W (Option Error)
  record_conditions ns hr phase setters none w = (none, w)
  record_conditions ns hr phase setters (some conditions) w =
      set_conditions ns hr conditions (setters ++ (set_phase phase ∷ [])) w

  unfoldable pub set_status_phase :
      String → HelmRelease → HelmReleasePhase → List Setter → Call W (Option Error)
  unfolding set_conditions
  set_status_phase ns hr phase setters w =
      record_conditions ns hr phase setters (conditions_for_phase hr phase (kube.now w)) w

  unfoldable pub set_status_phase_with_revision :
      String → HelmRelease → HelmReleasePhase → String → Call W (Option Error)
  unfolding set_status_phase
  set_status_phase_with_revision ns hr phase revision =
      set_status_phase ns hr phase (set_revision phase revision ∷ [])

  unfoldable pub set_release_status : String → HelmRelease → String → String → Call W (Option Error)
  unfolding update
  set_release_status ns hr release_name release_status =
      update false ns (release_status_change release_name release_status) hr

  unfoldable pub set_release_revision : String → HelmRelease → String → Call W (Option Error)
  unfolding update
  set_release_revision ns hr revision = update false ns (revision_change revision) hr

  unfoldable pub set_observed_generation : String → HelmRelease → ℤ → Call W (Option Error)
  unfolding update
  set_observed_generation ns hr generation = update false ns (generation_change generation) hr
