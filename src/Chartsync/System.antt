-- ===== src/Chartsync/System.antt =====
-- What the fetching of charts calls: files, HTTP, base64, URLs, AES and the two object stores.
use helm_operator.Base.{List, Option, String, ℕ}
use helm_operator.Errors.{Error}
use helm_operator.Effects.{Call, Result}

-- What `os.Stat` tells of a path.
pub data FileStat : Type 0 where
  not_exist : FileStat
  stat_failed : Error → FileStat
  directory : FileStat
  regular : FileStat

-- A parsed URL, with the two parts that the code changes.
pub record Url : Type 0 where
  pub rest : String
  pub path : String
  pub raw_query : String

-- A response to a GET: its status code and its body.
pub record Response : Type 0 where
  pub status_code : ℕ
  pub body : String

pub record Os (W : Type 0) : Type 0 where
  pub stat : String → Call W FileStat
  pub mkdir_all : String → Call W (Option Error)
  pub create : String → Call W (Option Error)
  pub copy : String → String → Call W (Option Error)
  pub http_get : String → Call W (Result Response)
  -- `filepath.Join`, `base64.URLEncoding.EncodeToString`, `base64.StdEncoding.DecodeString` and
  -- the conversion of bytes to a string
  pub join : String → String → String
  pub encode : String → String
  pub decode : String → Result (List ℕ)
  pub of_bytes : List ℕ → String
  pub parse_url : String → Result Url
  pub url_string : Url → String
  -- AES on one block of 16 bytes, under the key of the code
  pub decrypt_block : List ℕ → List ℕ
  -- a client of an object store (endpoint, id, secret), its bucket, and the download of a key
  pub oss_new : String → String → String → Call W (Option Error)
  pub oss_bucket : String → Call W (Option Error)
  pub oss_get_to_file : String → String → String → Call W (Option Error)
  pub obs_new : String → String → String → Call W (Option Error)
  pub obs_download : String → String → String → Call W (Option Error)
  pub obs_close : W → W
