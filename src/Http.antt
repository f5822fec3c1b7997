-- ===== src/Http.antt =====
-- The transfers by libcurl: `http_get` (modules/news-pipeline/src/rss_crawler.cpp), `http_post`
-- (modules/stock-feed/src/kis_client.cpp) and that of `list` (modules/dart-crawler/src/dart_client.cpp).
-- What libcurl hands to `curl_write` before a transfer ends, for whatever reason it ends, and how it
-- escapes a text, are arguments.
use lemuel_quant_core.Base.{
  ℕ, Bool, true, false, Option, none, some, List, [], ◌∷◌, ◌++◌, if◌then◌else◌,
}
use lemuel_quant_core.Base.Bytes.{Bytes, lit}

-- The options of a transfer; the timeout is in seconds.
pub record Request : Type 0 where
  pub url : Bytes
  pub post_fields : Option Bytes
  pub headers : List Bytes
  pub follows : Bool
  pub user_agent : Option Bytes
  pub timeout : ℕ

-- Is there a handle, and what does a request receive?
pub record Curl : Type 0 where
  pub is_init : Bool
  pub receive : Request → List Bytes

abbrev curl_write : Bytes → Bytes → Bytes
curl_write body chunk = body ++ chunk

abbrev pub written : Bytes → List Bytes → Bytes
written body [] = body
written body (chunk ∷ chunks) = written (curl_write body chunk) chunks

unfoldable pub http_get : Curl → Bytes → Bytes
http_get curl url =
    if curl.is_init
    then written [] (
        curl.receive (record {
          url = url;
          post_fields = none;
          headers = [];
          follows = true;
          user_agent = none;
          timeout = 8;
        }))
    else []

-- The result of the transfer is not asked for.
unfoldable pub http_post : Curl → List Bytes → Bytes → Bytes → Bytes
http_post curl headers url body =
    if curl.is_init
    then written [] (
        curl.receive (record {
          url = url;
          post_fields = some body;
          headers = lit "Content-Type: application/json" ∷ headers;
          follows = false;
          user_agent = none;
          timeout = 10;
        }))
    else []

-- The request of `list`; its answer is read only if the transfer succeeds.
unfoldable list_request : Bytes → Request
list_request url = record {
  url = url;
  post_fields = none;
  headers = [];
  follows = true;
  user_agent = some (lit "lemuel-quant-core/0.1");
  timeout = 15;
}

-- `esc`: the text itself if libcurl has no memory for the escaped one.
unfoldable pub esc : (Bytes → Option Bytes) → Bytes → Bytes
esc escape s = elim (escape s) [ none ↦ s | some e ↦ e ]
