-- ===== src/Frame/Charts.antt =====
-- The fetching of charts (pkg/chartsync) keeps what its calls keep.
use helm_operator.Base.{String, arith, Option, Bool, some, none}
use helm_operator.Chartsync.{
  Os, download_to, Response, download_file, Provider, responded, fetch_object, copied, or_fail,
  endpoint, decode_and_fetch, provider_download_file, decoded_fetch, source_of, ack_decode,
  fetch_missing, make_chart_path, ensure_chart_fetched, download_chart, fetch_into, clean_repo_url,
  FileStat,
}
use helm_operator.Frame.Laws.{OsKeeps, ClientKeeps}
use helm_operator.Effects.{Result, err, ok}
use helm_operator.Api.{Oss, RepoChartSource}
use helm_operator.Errors.{Error}
use helm_operator.Helm.{Client}

module _ {W : Type 0} (P : W → Type 0) (os : Os W) (keeps : OsKeeps P os) where
  copied-kept :
      (path : String) (response : Response) (x : Option Error × W)
      → P x.1
      → P (copied os path response x).1
  copied-kept path response (some e, w) p = p
  copied-kept path response (none, w) p = (keeps.copy path response.body).at w p

  responded-kept : (path : String) (x : Result Response × W) → P x.1 → P (responded os path x).1
  responded-kept path (err e, w) p = p
  responded-kept path (ok response, w) p =
      copied-kept path response (os.create path w) ((keeps.create path).at w p)

  download_to-kept : (key path : String) (w : W) → P w → P (download_to os key path w).1
  unfolding download_to
  download_to-kept key path w p =
      responded-kept path (os.http_get key w) ((keeps.http_get key).at w p)

  pub download_file-kept :
      (key base : String) (use_cache : Bool) (w : W)
      → P w
      → P (download_file os key base use_cache w).1
  unfolding download_file
  download_file-kept key base use_cache w p =
      let path = os.join base (os.encode key) in
      let p₁ = (keeps.stat path).at w p in
      ground (arith, download_to-kept key path (os.stat path w).1 p₁, download_to-kept key path w p)

  or_fail-kept :
      {A : Type 0} (x : Option Error × W) (k : W → Result A × W)
      → P x.1
      → ((w : W) → P w → P (k w).1)
      → P (or_fail x k).1
  or_fail-kept (some e, w) k p h = p
  or_fail-kept (none, w) k p h = h w p

  fetch_object-kept :
      (provider : Provider) (oss : Oss) (path : String) (w : W)
      → P w
      → P (fetch_object os provider oss path w).1
  unfolding fetch_object
  fetch_object-kept (Provider.ali o base) oss path w p =
      or_fail-kept
        (os.oss_new (endpoint (Provider.ali o base) oss.region_id) oss.ack_id oss.ack_secret w) _
        ((keeps.oss_new (endpoint (Provider.ali o base) oss.region_id) oss.ack_id oss.ack_secret).at
          w p)
        λ w₁ p₁.
          or_fail-kept (os.oss_bucket oss.bucket w₁) _ ((keeps.oss_bucket oss.bucket).at w₁ p₁)
            λ w₂ p₂.
              or_fail-kept (os.oss_get_to_file oss.bucket oss.key path w₂) _
                ((keeps.oss_get_to_file oss.bucket oss.key path).at w₂ p₂) λ w₃ p₃. p₃
  fetch_object-kept (Provider.huawei o base) oss path w p =
      or_fail-kept
        (os.obs_new oss.ack_id oss.ack_secret (endpoint (Provider.huawei o base) oss.region_id) w) _
        ((keeps.obs_new oss.ack_id oss.ack_secret
            (endpoint (Provider.huawei o base) oss.region_id)).at
          w p)
        λ w₁ p₁. keeps.obs_close _ (
          or_fail-kept (os.obs_download oss.bucket oss.key path w₁) _
            ((keeps.obs_download oss.bucket oss.key path).at w₁ p₁) λ w₂ p₂. p₂)

  decode_and_fetch-kept :
      (provider : Provider) (oss : Oss) (path : String) (w : W)
      → P w
      → P (decode_and_fetch os provider oss path w).1
  unfolding decode_and_fetch
  decode_and_fetch-kept provider oss path w p = fetched (ack_decode os oss)
    where
      fetched : (r : Result Oss) → P (decoded_fetch os provider path r w).1
      fetched (err e) = p
      fetched (ok decoded) = fetch_object-kept provider decoded path w p

  pub provider_download_file-kept :
      (provider : Provider) (use_cache : Bool) (w : W)
      → P w
      → P (provider_download_file os provider use_cache w).1
  unfolding provider_download_file
  provider_download_file-kept provider use_cache w p =
      let oss = (source_of os provider).0 in
      let path = os.join (source_of os provider).1 (os.encode oss.key) in
      let p₁ = (keeps.stat path).at w p in
      ground (
        arith,
        decode_and_fetch-kept provider oss path (os.stat path w).1 p₁,
        decode_and_fetch-kept provider oss path w p,
      )

  module _ (client : Client W) (client_keeps : ClientKeeps P client) where
    fetch_missing-kept :
        (repo_path chart_path : String) (source : RepoChartSource) (stat : FileStat) (w : W)
        → P w
        → P (fetch_missing os client repo_path chart_path source stat w).1
    unfolding fetch_missing download_chart
    fetch_missing-kept repo_path chart_path source FileStat.not_exist w p =
        let p₁ =
          (client_keeps.pull_with_repo_url source.repo_url source.name source.version repo_path).at
            w p in
        ground (arith, p₁)
    fetch_missing-kept repo_path chart_path source (FileStat.stat_failed e) w p = p
    fetch_missing-kept repo_path chart_path source FileStat.directory w p = p
    fetch_missing-kept repo_path chart_path source FileStat.regular w p = p

    fetch_into-kept :
        (source : RepoChartSource) (x : Result (String × String) × W)
        → P x.1
        → P (fetch_into os client source x).1
    fetch_into-kept source (err e, w) p = p
    fetch_into-kept source (ok (repo_path, filename), w) p =
        let path = os.join repo_path filename in
        fetch_missing-kept repo_path path source (os.stat path w).0 (os.stat path w).1
          ((keeps.stat path).at w p)

    make_chart_path-kept :
        (base version : String) (source : RepoChartSource) (w : W)
        → P w
        → P (make_chart_path os base version source w).1
    unfolding make_chart_path
    make_chart_path-kept base version source w p =
        let path = os.join (os.join base version) (os.encode (clean_repo_url os source)) in
        let p₁ = (keeps.mkdir_all path).at w p in ground (arith, p₁)

    pub ensure_chart_fetched-kept :
        (base : String) (source : RepoChartSource) (w : W)
        → P w
        → P (ensure_chart_fetched os client base source w).1
    unfolding ensure_chart_fetched
    ensure_chart_fetched-kept base source w p =
        fetch_into-kept source (make_chart_path os base client.version source w)
          (make_chart_path-kept base client.version source w p)
