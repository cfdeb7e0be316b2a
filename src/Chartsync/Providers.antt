-- ===== src/Chartsync/Providers.antt =====
-- Charts from an object store (pkg/chartsync/oss.go).
use helm_operator.Base.{Bool, Option, String, if◌then◌else◌, none, some, str_eq, ◌++s◌}
use helm_operator.Api.{Oss}
use helm_operator.Effects.{Result, ok, err, Call}
use helm_operator.Errors.{Error, chart_unavailable, plain}
use helm_operator.Chartsync.System.{Os}
use helm_operator.Chartsync.Aes.{aes_decrypt}
use helm_operator.Chartsync.Fetch.{is_regular}

pub data Provider : Type 0 where
  ali : Oss → String → Provider
  huawei : Oss → String → Provider

unfoldable pub new_provider : Oss → String → Result Provider
new_provider oss base =
    if str_eq oss.cloud_provider "aliyun"
    then ok (ali oss base)
    else if str_eq oss.cloud_provider "huaweiyun"
    then ok (huawei oss base)
    else err (chart_unavailable (plain ("unknown cloudProvider :" ++s oss.cloud_provider)))

unfoldable pub endpoint : Provider → String → String
endpoint (ali _ _) region_id = "http://" ++s (region_id ++s ".aliyuncs.com")
endpoint (huawei _ _) region_id = "http://obs." ++s (region_id ++s ".myhuaweicloud.com")

-- The results that a panicking `Decrypt` returns once it has recovered: no text and no error.
abbrev recovered : {A : Type 0} → (A → String) → Option A → Result String
recovered f none = ok ""
recovered f (some a) = ok (f a)

-- One step after another; an error is reported as it is, or as an unavailable chart.
abbrev pub or_fail : {W A : Type 0} → Option Error × W → (W → Result A × W) → Result A × W
or_fail (some e, w) k = (err (chart_unavailable e), w)
or_fail (none, w) k = k w

module _ {W : Type 0} (os : Os W) where
  unfoldable pub decrypt : String → Result String
  decrypt encrypted = elim (os.decode encrypted) [
    | err e ↦ err e
    | ok bytes ↦ recovered os.of_bytes (aes_decrypt os.decrypt_block bytes)
  ]

  -- `AckDecode`: the credentials in the clear.
  unfoldable pub ack_decode : Oss → Result Oss
  unfolding decrypt
  ack_decode oss =
      if oss.ack_encrypted
      then elim (decrypt oss.ack_id) [
        | err e ↦ err e
        | ok id ↦ elim (decrypt oss.ack_secret) [
          | err e ↦ err e
          | ok secret ↦ ok (record oss { ack_id = id; ack_secret = secret })
        ]
      ]
      else ok oss

  unfoldable pub fetch_object : Provider → Oss → String → Call W (Result String)
  unfolding endpoint
  fetch_object (ali o base) oss cache_path w =
      or_fail (os.oss_new (endpoint (ali o base) oss.region_id) oss.ack_id oss.ack_secret w) λ w₁.
        or_fail (os.oss_bucket oss.bucket w₁) λ w₂.
          or_fail (os.oss_get_to_file oss.bucket oss.key cache_path w₂) λ w₃. (ok cache_path, w₃)
  fetch_object (huawei o base) oss cache_path w =
      or_fail (os.obs_new oss.ack_id oss.ack_secret (endpoint (huawei o base) oss.region_id) w)
        λ w₁.
          let (r, w₂) =
            or_fail (os.obs_download oss.bucket oss.key cache_path w₁) λ w₃. (ok cache_path, w₃) in
          (r, os.obs_close w₂)

  abbrev pub source_of : Provider → Oss × String
  source_of (ali oss base) = (oss, base)
  source_of (huawei oss base) = (oss, base)

  abbrev pub decoded_fetch : Provider → String → Result Oss → Call W (Result String)
  decoded_fetch p cache_path (err e) w = (err e, w)
  decoded_fetch p cache_path (ok decoded) w = fetch_object p decoded cache_path w

  unfoldable pub decode_and_fetch : Provider → Oss → String → Call W (Result String)
  unfolding ack_decode fetch_object
  decode_and_fetch p oss cache_path w = decoded_fetch p cache_path (ack_decode oss) w

  -- `DownloadFile` of either provider.
  unfoldable pub provider_download_file : Provider → Bool → Call W (Result String)
  unfolding decode_and_fetch
  provider_download_file p use_cache w =
      let (oss, base) = source_of p in
      let cache_path = os.join base (os.encode oss.key) in
      if use_cache
      then (let (stat, w₁) = os.stat cache_path w in
          if is_regular os stat then (ok cache_path, w₁) else decode_and_fetch p oss cache_path w₁)
      else decode_and_fetch p oss cache_path w
