-- ===== src/Fetcher/Util.antt =====
-- fetcher/util/fetcher.go: the requests, and the download of one file. The HTTP client, htcat and
-- the decompressors are parameters.
use goval_dictionary_v.Prelude.{ℕ, Bool, Option, none, some, List, [], ◌∷◌, ◌==◌, if◌then◌else◌}
use goval_dictionary_v.Text.{Text, codes, text_eq}
use goval_dictionary_v.Outcome.{
  Error, Outcome, ok, err, ◌>>=◌, failed_download, failed_decode, failed_fetch,
}

-- A MIMEType of Go is a number, which may be none of the constants.
pub data MimeType : Type 0 where
  xml txt json yml html bzip2 xz gzip : MimeType
  other : ℕ → MimeType

unfoldable pub mime_name : MimeType → Text
mime_name xml = codes "xml"
mime_name txt = codes "txt"
mime_name json = codes "json"
mime_name yml = codes "yml"
mime_name html = codes "html"
mime_name bzip2 = codes "bzip2"
mime_name xz = codes "xz"
mime_name gzip = codes "gz"
mime_name (other n) = codes "Unknown"

pub record FetchRequest : Type 0 where
  pub target : Text
  pub url : Text
  pub mime_type : MimeType
  pub concurrently : Bool
  pub log_suppressed : Bool

pub record FetchResult : Type 0 where
  pub target : Text
  pub url : Text
  pub body : Text
  pub log_suppressed : Bool

-- FetchFeedFiles: the results, and the error if there is one
abbrev pub Fetch : Type 0
Fetch = List FetchRequest → List FetchResult × Option Error

-- `if err != nil` after a call of FetchFeedFiles
unfoldable pub fetched : List FetchResult × Option Error → Outcome (List FetchResult)
fetched r = elim r.1 [ none ↦ ok r.0 | some e ↦ err failed_fetch ]

-- The head of a fetcher: `if len(reqs) == 0`, and the call of FetchFeedFiles.
unfoldable pub fetch_requests : Fetch → List FetchRequest → Outcome (List FetchResult)
fetch_requests fetch [] = err failed_fetch
fetch_requests fetch (req ∷ reqs) = fetched (fetch (req ∷ reqs))

-- The network and the formats. A client is made for a proxy, or for none.
pub record Web : Type 1 where
  pub Client : Type 0
  pub Response : Type 0
  pub default_client : Client
  -- url.Parse and the client with that proxy
  pub proxy_client : Text → Option Client
  -- url.Parse, and htcat with the number of its connections
  pub parses : Text → Bool
  pub htcat : Client → Text → ℕ → Option Text
  -- http.NewRequest, Client.Do with the header User-Agent, the status and what io.Copy reads
  pub makes_request : Text → Bool
  pub send_request : Client → Text → Text → Option Response
  pub status_code : Response → ℕ
  pub read : Response → Option Text
  pub bunzip2 : Text → Option Text
  -- NewReader and ReadFrom of the other two formats
  pub open_xz : Text → Option Text
  pub read_xz : Text → Option Text
  pub open_gzip : Text → Option Text
  pub read_gzip : Text → Option Text

abbrev pub or_fail {ℓ} : {A : Type ℓ} → Option A → Outcome A
or_fail none = err failed_download
or_fail (some a) = ok a

abbrev decoded : Option Text → Outcome Text
decoded none = err failed_decode
decoded (some b) = ok b

module _ (web : Web) (http_proxy : Text) where
  unfoldable pub http_client : Outcome web.Client
  http_client =
      if text_eq http_proxy [] then ok web.default_client else or_fail (web.proxy_client http_proxy)

  -- the switch on the type of the file, the same in both functions
  unfoldable pub decode_body : MimeType → Text → Outcome Text
  decode_body xml buf = ok buf
  decode_body txt buf = ok buf
  decode_body json buf = ok buf
  decode_body yml buf = ok buf
  decode_body html buf = ok buf
  decode_body bzip2 buf = decoded (web.bunzip2 buf)
  decode_body xz buf = do r ← decoded (web.open_xz buf); decoded (web.read_xz r)
  decode_body gzip buf = do r ← decoded (web.open_gzip buf); decoded (web.read_gzip r)
  decode_body (other n) buf = ok []

  unfoldable pub fetch_file_concurrently : FetchRequest → ℕ → Outcome Text
  fetch_file_concurrently req concurrency = do
    client ← http_client
    buf ←
        (if web.parses req.url
          then or_fail (web.htcat client req.url concurrency)
          else err failed_download)
    decode_body req.mime_type buf

  unfoldable pub fetch_file_with_ua : FetchRequest → Outcome Text
  fetch_file_with_ua req = do
    client ← http_client
    resp ←
        (if web.makes_request req.url
          then or_fail (web.send_request client req.url (codes "curl/7.37.0"))
          else err failed_download)
    buf ← (if web.status_code resp == 200 then or_fail (web.read resp) else err failed_download)
    decode_body req.mime_type buf
