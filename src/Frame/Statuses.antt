-- ===== src/Frame/Statuses.antt =====
-- The updates of a status (pkg/status/status.go, pkg/status/conditions.go) keep what their calls keep.
use helm_operator.Base.{
  Bool, Bool-cases, List, Option, String, [], false, inl, inr, none, some, true, ℤ, ◌++◌, ◌∷◌,
}
use helm_operator.Api.{HelmRelease, HelmReleasePhase, HelmReleaseCondition}
use helm_operator.Kube.{Kube, Attempt, GaugeOp}
use helm_operator.Status.{
  attempt, write, update, Change, Setter, set_conditions, set_status_phase,
  set_status_phase_with_revision, set_observed_generation, run_gauge, report, conditions_change,
  generation_change, set_revision, observe_release_conditions, on_fresh, record_conditions,
  set_phase, conditions_for_phase,
}
use helm_operator.Frame.Laws.{Keeps, KubeKeeps}
use helm_operator.Effects.{Result, ok, err}

module _ {W : Type 0} (P : W → Type 0) (kube : Kube W) (keeps : KubeKeeps P kube) where
  run_gauge-kept : (ops : List GaugeOp) (w : W) → P w → P (run_gauge kube ops w)
  run_gauge-kept [] w p = p
  run_gauge-kept (op ∷ ops) w p = run_gauge-kept ops (kube.gauge op w) (keeps.gauge op w p)

  report-kept :
      (gauged : Bool) (old new : HelmRelease) (w : W) → P w → P (report kube gauged old new w)
  report-kept false old new w p = p
  report-kept true old new w p = run_gauge-kept (observe_release_conditions old (some new)) w p

  write-kept :
      (gauged : Bool) (ns : String) (hr : HelmRelease) (new : Option HelmRelease) (w : W)
      (first : Bool)
      → P w
      → P ((write kube gauged ns hr new w first).1).world
  unfolding write
  write-kept gauged ns hr none w first p = p
  write-kept gauged ns hr (some new) w first p =
      (keeps.update_status ns new).at (report kube gauged hr new w) (report-kept gauged hr new w p)

  on_fresh-kept :
      (gauged : Bool) (ns : String) (change : Change) (a : Attempt W) (x : Result HelmRelease × W)
      → P x.1
      → P ((on_fresh kube gauged ns change a x).1).world
  on_fresh-kept gauged ns change a (ok fresh, w) p =
      write-kept gauged ns fresh (change fresh) w false p
  on_fresh-kept gauged ns change a (err e, w) p = p

  attempt-kept :
      (gauged : Bool) (ns : String) (change : Change) (a : Attempt W)
      → P a.world
      → P ((attempt kube gauged ns change a).1).world
  unfolding attempt
  attempt-kept gauged ns change a p = elim (Bool-cases a.first_try) [
    | inl e ↦ simp (e) (write-kept gauged ns a.hr (change a.hr) a.world true p)
    | inr e ↦ simp (e) (
        on_fresh-kept gauged ns change a (kube.get ns a.hr.name a.world)
          ((keeps.get ns a.hr.name).at a.world p))
  ]

  update-Keeps :
      (gauged : Bool) (ns : String) (change : Change) (hr : HelmRelease)
      → Keeps P (update kube gauged ns change hr)
  unfolding update
  update-Keeps gauged ns change hr = record {
    at = λ w p.
        keeps.retry (attempt kube gauged ns change)
          (record { world = w; hr = hr; first_try = true }) (attempt-kept gauged ns change) p;
  }

  pub set_status_phase-Keeps :
      (ns : String) (hr : HelmRelease) (phase : HelmReleasePhase) (setters : List Setter)
      → Keeps P (set_status_phase kube ns hr phase setters)
  unfolding set_status_phase set_conditions
  set_status_phase-Keeps ns hr phase setters = record {
    at = λ w p. recorded (conditions_for_phase hr phase (kube.now w)) w p;
  }
    where
      recorded :
          (cs : Option (List HelmReleaseCondition)) (w : W)
          → P w
          → P (record_conditions kube ns hr phase setters cs w).1
      recorded none w p = p
      recorded (some cs) w p =
          (update-Keeps true ns (conditions_change cs (setters ++ (set_phase phase ∷ []))) hr).at w
            p

  pub set_status_phase_with_revision-Keeps :
      (ns : String) (hr : HelmRelease) (phase : HelmReleasePhase) (revision : String)
      → Keeps P (set_status_phase_with_revision kube ns hr phase revision)
  unfolding set_status_phase_with_revision
  set_status_phase_with_revision-Keeps ns hr phase revision =
      set_status_phase-Keeps ns hr phase (set_revision phase revision ∷ [])

  pub set_observed_generation-Keeps :
      (ns : String) (hr : HelmRelease) (generation : ℤ)
      → Keeps P (set_observed_generation kube ns hr generation)
  unfolding set_observed_generation
  set_observed_generation-Keeps ns hr generation =
      update-Keeps false ns (generation_change generation) hr
