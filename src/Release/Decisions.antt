-- ===== src/Release/Decisions.antt =====
-- Why a sync starts with an action (`determineSyncAction`, pkg/release/release.go).
use helm_operator.Base.{
  lookup, Bool, Bool-cases, List, Option, String, arith, false, if◌then◌else◌, inl, inr, is_some,
  none, not, refl, some, str_eq, str_eq_iff, true, ◌&&◌, ◌||◌, ◌≡◌, ◌⊎◌,
}
use helm_operator.Release.Context.{Env, Chart, Action}
use helm_operator.Helm.{Release, Client, allows_upgrade}
use helm_operator.Effects.{Result, err, ok}
use helm_operator.Api.{HelmRelease, get_release_name, get_target_namespace, get_helm_version}
use helm_operator.Errors.{Error}
use helm_operator.Release.Cases.{migrate_annotation}
use helm_operator.Status.{has_synced, has_rolled_back, should_retry_upgrade}
use helm_operator.Release.Manifest.{managed_by_helm_release}
use helm_operator.Release.Decide.{
  Decision, determine_sync_action, decide_new, decide_managed, decide_by_owner, decide_found,
  from_history, from_v2,
}

module _ {W : Type 0} (env : Env W) (client : Client W) (hr : HelmRelease) (chart : Chart)
    (w : W) where
  -- What the client answers of the release, and the world after that.
  abbrev answer : Result (Option Release) × W
  answer =
      client.get (get_release_name hr) (record { namespace = get_target_namespace hr; version = 0 })
        w

  -- The client finds this release, it is managed by the HelmRelease, and it may be upgraded.
  abbrev pub Ours : Release → Type 0
  Ours cur =
      (answer.0 ≡ ok (some cur))
      × ((managed_by_helm_release env cur hr answer.1).0.0 ≡ true)
      × (allows_upgrade cur.info.status ≡ true)

  -- The reason for an action.
  abbrev pub Justified : Action → Type 0
  Justified Action.install = answer.0 ≡ ok none
  Justified Action.migrate =
      (answer.0 ≡ ok none)
      × (is_some (lookup migrate_annotation hr.annotations) ≡ true)
      × (get_helm_version hr env.config.default_helm_version ≡ "v3")
      × ((env.v2_release_exists (get_release_name hr) answer.1).0 ≡ ok true)
  Justified Action.upgrade =
      (cur : Release) × Ours cur
      × ((has_synced hr ≡ false)
          ⊎ (chart.changed ≡ true)
          ⊎ ((has_rolled_back hr ≡ true) × (should_retry_upgrade hr ≡ true)))
  Justified Action.dry_run_compare =
      (cur : Release) × Ours cur
      × (has_synced hr ≡ true)
      × (chart.changed ≡ false)
      × ((has_rolled_back hr ≡ false) ⊎ (should_retry_upgrade hr ≡ false))
  Justified _ = ⊥

  abbrev pub Reasoned : Decision → Type 0
  Reasoned (err e) = Unit
  Reasoned (ok (a, rel)) = Justified a

  if-Reasoned :
      (b : Bool) (x y : Decision × W)
      → (b ≡ true → Reasoned x.0)
      → (b ≡ false → Reasoned y.0)
      → Reasoned (if b then x else y).0
  if-Reasoned true x y f g = f refl
  if-Reasoned false x y f g = g refl

  v2-Reasoned :
      (x : Result Bool × W)
      → Justified Action.install
      → (x.0 ≡ ok true → Justified Action.migrate)
      → Reasoned (from_v2 env client hr chart x).0
  v2-Reasoned (err e, _) i m = tt
  v2-Reasoned (ok true, _) i m = m refl
  v2-Reasoned (ok false, _) i m = i

  new-Reasoned : answer.0 ≡ ok none → Reasoned (decide_new env client hr chart answer.1).0
  unfolding decide_new
  new-Reasoned h =
      let exists = env.v2_release_exists (get_release_name hr) answer.1 in
      if-Reasoned
        (is_some (lookup migrate_annotation hr.annotations)
          && str_eq (get_helm_version hr env.config.default_helm_version) "v3")
        _ _
        (λ c. v2-Reasoned exists h (λ e. (h, (both _ _ c).0, (str_eq_iff _ _).0 (both _ _ c).1, e)))
        (λ _. h)
    where
      both : (a b : Bool) → (a && b) ≡ true → (a ≡ true) × (b ≡ true)
      both a b h = ground arith

  history-Reasoned :
      (cur : Release) (x : Result (List Release) × W)
      → Justified Action.dry_run_compare
      → Reasoned (from_history env client hr chart cur x).0
  history-Reasoned cur (err e, _) j = tt
  history-Reasoned cur (ok hist, _) j = j

  managed-Reasoned :
      (cur : Release) (v : W) → Ours cur → Reasoned (decide_managed env client hr chart cur v).0
  unfolding decide_managed
  managed-Reasoned cur v o =
      if-Reasoned (not (has_synced hr)) _ _ (λ s. (cur, o, inl (ground arith)))
        (λ s.
          if-Reasoned (has_rolled_back hr) _ _
            (λ b.
              if-Reasoned (chart.changed || should_retry_upgrade hr) _ _
                (λ t. (cur, o, inr (retried b t)))
                (λ t.
                  history-Reasoned cur _ (cur, o, ground arith, ground arith, inr (ground arith))))
            (λ b.
              if-Reasoned chart.changed _ _ (λ c. (cur, o, inr (inl c)))
                (λ c. (cur, o, ground arith, c, inl b))))
    where
      retried :
          has_rolled_back hr ≡ true
          → (chart.changed || should_retry_upgrade hr) ≡ true
          → (chart.changed ≡ true)
            ⊎ ((has_rolled_back hr ≡ true) × (should_retry_upgrade hr ≡ true))
      retried b t = elim (Bool-cases chart.changed) [
        | inl c ↦ inl c
        | inr c ↦ inr (b, ground arith)
      ]

  owner-Reasoned :
      (cur : Release) (x : (Bool × String × Option Error) × W)
      → answer.0 ≡ ok (some cur)
      → (managed_by_helm_release env cur hr answer.1).0.0 ≡ x.0.0
      → Reasoned (decide_by_owner env client hr chart cur x).0
  owner-Reasoned cur ((_, _, some e), v) f m = tt
  owner-Reasoned cur ((false, _, none), v) f m = tt
  owner-Reasoned cur ((true, _, none), v) f m = elim (Bool-cases (allows_upgrade cur.info.status)) [
    | inl a ↦ rw a (managed-Reasoned cur v (f, m, a))
    | inr a ↦ rw a tt
  ]

  found-Reasoned :
      (r : Result (Option Release))
      → answer.0 ≡ r
      → Reasoned (decide_found env client hr chart (r, answer.1)).0
  found-Reasoned (err e) h = tt
  found-Reasoned (ok none) h = new-Reasoned h
  found-Reasoned (ok (some cur)) h =
      owner-Reasoned cur (managed_by_helm_release env cur hr answer.1) h refl

  -- A sync starts with an installation or a migration only where there is no release, with a
  -- migration only if its annotation is there, the target is Helm 3 and a release of Helm 2 exists,
  -- with an upgrade only of a release that is managed by the HelmRelease and deployed, for one of
  -- the three reasons, with a comparison only where none of them holds, and with nothing else.
  pub determine_sync_action-Reasoned : Reasoned (determine_sync_action env client hr chart w).0
  unfolding determine_sync_action
  determine_sync_action-Reasoned = found-Reasoned answer.0 refl
