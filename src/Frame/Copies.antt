-- ===== src/Frame/Copies.antt =====
-- The copies of git mirrors after the preparation of a chart (`prepareChart`, pkg/release/release.go).
use helm_operator.Base.{
  Bool, Option, String, ap, false, if◌then◌else◌, inl, inr, ltb, none, not, refl, some, suc, true,
  ℕ, ◌&&◌, ◌-◌, ◌∙◌, ◌≡◌, ◌⊎◌,
}
use helm_operator.Effects.{Result, Outcome, ok, err, returned, panicked, ◌>>=◌, call, pure}
use helm_operator.Errors.{Error}
use helm_operator.Api.{HelmRelease, GitChartSource, RepoChartSource, Customize, Oss}
use helm_operator.Helm.{Client}
use helm_operator.Values.{Sources}
use helm_operator.Release.{
  Env, Chart, Export, Prepared, export_chart, with_revision, revised, updated, path_of,
  from_new_provider, prepare_from,
}
use helm_operator.Frame.Laws.{EnvKeeps, ClientKeeps, SourcesKeeps}
use helm_operator.Frame.Charts.{
  ensure_chart_fetched-kept, download_file-kept, provider_download_file-kept,
}
use helm_operator.Chartsync.{Provider, new_provider}

-- A count of the copies on disk: a copy adds one, its cleanup takes one, and no other call changes it.
pub record CountsExports {W : Type 0} (env : Env W) (client : Client W) (src : Sources W)
    : Type 0 where
  pub exports : W → ℕ
  pub env_keeps : (n : ℕ) → EnvKeeps (λ w. exports w ≡ n) env
  pub client_keeps : (n : ℕ) → ClientKeeps (λ w. exports w ≡ n) client
  pub src_keeps : (n : ℕ) → SourcesKeeps (λ w. exports w ≡ n) src
  pub copied :
      (hr : HelmRelease) (w w₁ : W) (x : Export × String)
      → env.get_mirror_copy hr w ≡ (ok x, w₁)
      → exports w₁ ≡ suc (exports w)
  pub not_copied :
      (hr : HelmRelease) (w w₁ : W) (e : Error)
      → env.get_mirror_copy hr w ≡ (err e, w₁)
      → exports w₁ ≡ exports w
  pub cleaned : (export : Export) (w : W) → exports (env.clean_export export w) ≡ exports w - 1

module _ {W : Type 0} (env : Env W) (client : Client W) (src : Sources W)
    (counts : CountsExports env client src) (hr : HelmRelease) where
  -- There are n copies.
  abbrev pub Has : ℕ → W → Type 0
  Has n w = counts.exports w ≡ n

  -- A dependency update of the client that failed.
  abbrev pub UpdateFails : Type 0
  UpdateFails =
      (path : String) × ((v : W) × ((e : Error) × ((client.dependency_update path v).0 ≡ some e)))

  -- The copies after the preparation of a chart, of n before it.
  abbrev pub Held : ℕ → Outcome Prepared × W → Type 0
  Held n (panicked, w) = Has n w
  Held n (returned (err e), w) = Has n w ⊎ (UpdateFails × Has (suc n) w)
  Held n (returned (ok (chart, none)), w) = Has n w
  Held n (returned (ok (chart, some export)), w) = Has (suc n) w

  revised-Held :
      (n : ℕ) (path : String) (x : Outcome (Result String) × W)
      → Has n x.1
      → Held n (((λ (_ : W). x) >>= λ r. pure (revised env client hr path r)) x.1)
  revised-Held n path (panicked, w) p = p
  revised-Held n path (returned (err e), w) p = inl p
  revised-Held n path (returned (ok revision), w) p = p

  with_revision-Held :
      (n : ℕ) (x : Result String × W) → Has n x.1 → Held n (with_revision env client hr x)
  unfolding with_revision
  with_revision-Held n (err e, w) p = inl p
  with_revision-Held n (ok path, w) p =
      revised-Held n path (client.get_chart_revision path w)
        ((counts.client_keeps n).get_chart_revision path w p)

  updated-Held :
      (n : ℕ) (chart : Chart) (export : Export) (path : String) (v : W) (x : Option Error × W)
      → client.dependency_update path v ≡ x
      → Has (suc n) x.1
      → Held n (call (λ (_ : W). updated env client hr chart export x) v)
  updated-Held n chart export path v (none, w) e p = p
  updated-Held n chart export path v (some d, w) e p = inr ((path, (v, (d, ap (λ y. y.0) e))), p)

  if_Held :
      (n : ℕ) (b : Bool) (x y : Prepared × W) (w : W)
      → Held n (call (λ (_ : W). x) w)
      → Held n (call (λ (_ : W). y) w)
      → Held n (call (λ (_ : W). if b then x else y) w)
  if_Held n true x y w p q = p
  if_Held n false x y w p q = q

  export_chart-Held :
      (n : ℕ) (g : GitChartSource) (w : W) (x : Result (Export × String) × W)
      → env.get_mirror_copy hr w ≡ x
      → Has n w
      → Held n (call (λ (_ : W). export_chart env client hr g x) w)
  unfolding export_chart
  export_chart-Held n g w (err e, w₁) m p = inl (counts.not_copied hr w w₁ e m ∙ p)
  export_chart-Held n g w (ok (export, revision), w₁) m p =
      let path = env.os.join export.dir g.path in
      let changed = env.changed_files export hr.status.last_attempted_revision g.path w₁ in
      let chart : Chart = record {
        chart_path = path;
        revision = revision;
        changed = ltb 0 changed.0;
      } in
      let q =
        ((counts.env_keeps (suc n)).changed_files export hr.status.last_attempted_revision
            g.path).at
          w₁ (counts.copied hr w w₁ (export, revision) m ∙ ap suc p) in
      if_Held n (env.config.update_deps && not g.skip_dep_update)
        (updated env client hr chart export (client.dependency_update path changed.1))
        (ok (chart, some export), changed.1) w
        (updated-Held n chart export path changed.1 (client.dependency_update path changed.1) refl
          (((counts.client_keeps (suc n)).dependency_update path).at changed.1 q))
        q

  path_of-Has :
      (n : ℕ) (x : Result (String × Bool) × W) → Has n x.1 → Has n (path_of env client hr x).1
  path_of-Has n (err e, w) p = p
  path_of-Has n (ok (path, b), w) p = p

  from_new_provider-Has :
      (n : ℕ) (use_cache : Bool) (r : Result Provider) (w : W)
      → Has n w
      → Has n (from_new_provider env client hr use_cache r w).1
  from_new_provider-Has n use_cache (err e) w p = p
  from_new_provider-Has n use_cache (ok provider) w p =
      provider_download_file-kept (Has n) env.os (counts.env_keeps n).os provider use_cache w p

  pub prepare_from-Held :
      (n : ℕ) (g : Option GitChartSource) (r : Option RepoChartSource) (c : Option Customize)
      (o : Option Oss) (w : W)
      → Has n w
      → Held n (prepare_from env client hr g r c o w)
  prepare_from-Held n (some g) r c o w p = export_chart-Held n g w (env.get_mirror_copy hr w) refl p
  prepare_from-Held n none (some r) c o w p = with_revision-Held n _ (
      path_of-Has n _ (
        ensure_chart_fetched-kept (Has n) env.os (counts.env_keeps n).os client
          (counts.client_keeps n) env.config.chart_cache r w p))
  prepare_from-Held n none none (some c) o w p = with_revision-Held n _ (
      download_file-kept (Has n) env.os (counts.env_keeps n).os c.key env.config.chart_cache
        c.use_cache w p)
  prepare_from-Held n none none none (some oss) w p =
      with_revision-Held n _
        (from_new_provider-Has n oss.use_cache (new_provider oss env.config.chart_cache) w p)
  prepare_from-Held n none none none none w p = inl p
