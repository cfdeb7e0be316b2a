-- ===== src/Chartsync/Fetch.antt =====
-- Charts from a URL and from a Helm repository (pkg/chartsync/download.go).
use Prim.Native.Char.{code}
use helm_operator.Base.{
  Bool, String, false, if◌then◌else◌, none, some, true, ◌++s◌, str_eq, ◌&&◌, ◌==◌, Option,
}
use helm_operator.Chartsync.System.{Os, FileStat, Response}
use helm_operator.Api.{RepoChartSource}
use helm_operator.Effects.{Call, Result, ok, err}
use helm_operator.Helm.{Client}
use helm_operator.Errors.{chart_unavailable, plain, Error}

-- `strings.TrimSuffix(s, "/")`
unfoldable pub trim_slash : String → String
trim_slash String.[] = ""
trim_slash (String.◌∷◌ c s) =
    let rest = trim_slash s in if str_eq s "" && (code c == b'/') then "" else String.◌∷◌ c rest

module _ {W : Type 0} (os : Os W) where
  -- `CleanRepoURL`
  unfoldable pub clean_repo_url : RepoChartSource → String
  clean_repo_url s = elim (os.parse_url s.repo_url) [
    | err e ↦ trim_slash s.repo_url ++s "/"
    | ok url ↦ os.url_string (record url { path = trim_slash url.path ++s "/"; raw_query = "" })
  ]

  abbrev pub is_regular : FileStat → Bool
  is_regular FileStat.not_exist = false
  is_regular (FileStat.stat_failed _) = false
  is_regular _ = true

  -- The fetch after a miss of the cache: neither the status of the response nor the result of
  -- the copy is looked at.
  abbrev pub copied : String → Response → Option Error × W → Result String × W
  copied cache_path response (some e, w) = (err (chart_unavailable e), w)
  copied cache_path response (none, w) = (ok cache_path, (os.copy cache_path response.body w).1)

  abbrev pub responded : String → Result Response × W → Result String × W
  responded cache_path (err e, w) = (err (chart_unavailable e), w)
  responded cache_path (ok response, w) = copied cache_path response (os.create cache_path w)

  unfoldable pub download_to : String → String → Call W (Result String)
  download_to key cache_path w = responded cache_path (os.http_get key w)

  -- `DownloadFile`
  unfoldable pub download_file : String → String → Bool → Call W (Result String)
  unfolding download_to
  download_file key base use_cache w =
      let cache_path = os.join base (os.encode key) in
      if use_cache
      then (let (stat, w₁) = os.stat cache_path w in
          if is_regular stat then (ok cache_path, w₁) else download_to key cache_path w₁)
      else download_to key cache_path w

  unfoldable pub make_chart_path :
      String → String → RepoChartSource → Call W (Result (String × String))
  unfolding clean_repo_url
  make_chart_path base client_version source w =
      let repo_path = os.join (os.join base client_version) (os.encode (clean_repo_url source)) in
      let (made, w₁) = os.mkdir_all repo_path w in
      elim made [
        | some e ↦ (err e, w₁)
        | none ↦ (ok (repo_path, source.name ++s ("-" ++s (source.version ++s ".tgz"))), w₁)
      ]

  unfoldable pub download_chart : Client W → String → RepoChartSource → Call W (Result String)
  download_chart client dest_folder source =
      client.pull_with_repo_url source.repo_url source.name source.version dest_folder

  -- The `switch` on the file that is expected.
  unfoldable pub fetch_missing :
      Client W → String → String → RepoChartSource → FileStat → W → Result (String × Bool) × W
  unfolding download_chart
  fetch_missing client repo_path chart_path source FileStat.not_exist w =
      let (r, w₁) = download_chart client repo_path source w in
      elim r [ err e ↦ (err (chart_unavailable e), w₁) | ok path ↦ (ok (path, true), w₁) ]
  fetch_missing client repo_path chart_path source (FileStat.stat_failed e) w =
      (err (chart_unavailable e), w)
  fetch_missing client repo_path chart_path source FileStat.directory w =
      (err (chart_unavailable (plain "path to chart exists but is a directory")), w)
  fetch_missing client repo_path chart_path source FileStat.regular w = (ok (chart_path, false), w)

  abbrev pub fetch_into :
      Client W → RepoChartSource → Result (String × String) × W → Result (String × Bool) × W
  fetch_into client source (err e, w) = (err (chart_unavailable e), w)
  fetch_into client source (ok (repo_path, filename), w) =
      let chart_path = os.join repo_path filename in
      let (stat, w₁) = os.stat chart_path w in
      fetch_missing client repo_path chart_path source stat w₁

  -- `EnsureChartFetched`: the path of the chart and whether it was fetched.
  unfoldable pub ensure_chart_fetched :
      Client W → String → RepoChartSource → Call W (Result (String × Bool))
  unfolding make_chart_path fetch_missing
  ensure_chart_fetched client base source w =
      fetch_into client source (make_chart_path base client.version source w)
