-- ===== src/Ol/Client.antt =====
-- internal/ol/client.go: the URLs of Open Library, and fetching one.
pub mod Laws
use relentless_bookworm.Base.{
  ℕ, Bool, true, false, ◌||◌, List, [], ◌∷◌, ◌++◌, ltb, leb, if◌then◌else◌, Bytes, codes,
}
use relentless_bookworm.Text.{has_suffix, trim_right, query_escape}
use relentless_bookworm.Result.{Result, ok, err, transport, unexpected_status, ◌>>=◌}

abbrev pub dot_json : Bytes
dot_json = codes ".json"

unfoldable pub ensure_json_url : Bytes → Bytes
ensure_json_url url = if has_suffix url dot_json then url else trim_right url b'/' ++ dot_json

unfoldable pub search_url : Bytes → Bytes
search_url query = codes "https://openlibrary.org/search.json?q=" ++ query_escape query

unfoldable pub search_author_url : Bytes → Bytes
search_author_url author =
    codes "https://openlibrary.org/search.json?author=" ++ query_escape author

unfoldable pub search_subject_url : Bytes → Bytes
search_subject_url subject =
    codes "https://openlibrary.org/search.json?subject=" ++ query_escape subject

-- What the client's `Do` hands back: the status, and the body as far as it can be read.
pub record Response : Type 0 where
  pub status_code : ℕ
  pub body : Result Bytes

-- `send` is net/http, request and round trip together.
unfoldable pub fetch_json_with_client : (Bytes → Result Response) → Bytes → Result Bytes
fetch_json_with_client send url = do
  resp ← send url
  if ltb resp.status_code 200 || leb 300 resp.status_code
      then err (unexpected_status resp.status_code)
      else resp.body
