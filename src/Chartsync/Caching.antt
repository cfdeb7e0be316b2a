-- ===== src/Chartsync/Caching.antt =====
-- When a chart is taken from the cache and when it is fetched (pkg/chartsync).
use helm_operator.Base.{String, arith, false, none, true, ◌++s◌, ◌≡◌}
use helm_operator.Chartsync.System.{Os, FileStat}
use helm_operator.Helm.{Client}
use helm_operator.Api.{RepoChartSource}
use helm_operator.Chartsync.Fetch.{
  clean_repo_url, ensure_chart_fetched, make_chart_path, download_chart,
}
use helm_operator.Effects.{ok, err, Result}
use helm_operator.Errors.{chart_unavailable}

-- A result, or the error of a chart that is unavailable.
abbrev pub Unavailable {ℓ} : {A : Type ℓ} → Result A → Type 0
Unavailable (ok _) = Unit
Unavailable (err (chart_unavailable _)) = Unit
Unavailable (err _) = ⊥

module _ {W : Type 0} (os : Os W) (client : Client W) (base : String)
    (source : RepoChartSource) where
  -- Where the chart of the source is expected.
  abbrev pub repo_path : String
  repo_path = os.join (os.join base client.version) (os.encode (clean_repo_url os source))

  abbrev pub chart_file : String
  chart_file = os.join repo_path (source.name ++s ("-" ++s (source.version ++s ".tgz")))

  -- A chart that is missing is pulled once: if its file is there afterwards, the next fetch takes
  -- it from the cache, without a call of the client.
  pub fetched_then_cached :
      (w w₁ w₂ w₃ w₄ w₅ : W)
      → os.mkdir_all repo_path w ≡ (none, w₁)
      → os.stat chart_file w₁ ≡ (FileStat.not_exist, w₂)
      → client.pull_with_repo_url source.repo_url source.name source.version repo_path w₂
        ≡ (ok chart_file, w₃)
      → os.mkdir_all repo_path w₃ ≡ (none, w₄)
      → os.stat chart_file w₄ ≡ (FileStat.regular, w₅)
      → (ensure_chart_fetched os client base source w ≡ (ok (chart_file, true), w₃))
        × (ensure_chart_fetched os client base source w₃ ≡ (ok (chart_file, false), w₅))
  unfolding ensure_chart_fetched make_chart_path download_chart
  fetched_then_cached w w₁ w₂ w₃ w₄ w₅ m s p m' s' = (ground arith, ground arith)

  -- Whatever fails while a chart is fetched, the error is that of an unavailable chart.
  pub ensure_chart_fetched-Unavailable :
      (w : W) → Unavailable (ensure_chart_fetched os client base source w).0
  unfolding ensure_chart_fetched make_chart_path download_chart
  ensure_chart_fetched-Unavailable w = ground arith
