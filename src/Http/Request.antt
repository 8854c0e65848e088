-- ===== src/Http/Request.antt =====
-- `parse_http_buf`: the request line and the headers. The parser is picohttpparser's
-- `phr_parse_request`, a parameter here.
use lorawanatd_canarin.Base.{
  ℕ, ◌+◌, ◌-◌, ◌%◌, ◌^◌, Bool, true, false, ◌&&◌, List, [], ◌∷◌, ◌++◌, Bytes, codes, strncmp_eq,
  strncpy, strtol, Outcome, ok, in_bounds, ◌>>=◌, ◌>>◌, ltb, if◌then◌else◌, length,
}
use lorawanatd_canarin.State.{HttpClient, HttpRequest}
use lorawanatd_canarin.Http.Route.{get_action_from_http_request}

-- `struct phr_header`; a pointer is the text from there on.
pub record PhrHeader : Type 0 where
  pub name : Bytes
  pub name_len : ℕ
  pub value : Bytes
  pub value_len : ℕ

-- The number that `phr_parse_request` returns: the length of the head, -1, or -2 (or 0).
pub data PhrReturn : Type 0 where
  complete : ℕ → PhrReturn
  malformed incomplete : PhrReturn

-- What `phr_parse_request` returns and stores.
pub record PhrResult : Type 0 where
  pub pret : PhrReturn
  pub method : Bytes
  pub method_len : ℕ
  pub path : Bytes
  pub path_len : ℕ
  pub headers : List PhrHeader

-- The text, and the length that was there at the last call.
abbrev pub PhrParser : Type 0
PhrParser = Bytes → ℕ → PhrResult

-- `atoi` makes an `int` of a `long`, and the assignment a `size_t` of that.
unfoldable pub size_of_int : ℕ → ℕ
size_of_int n = let low = n % 2 ^ 32 in if ltb low (2 ^ 31) then low else low + (2 ^ 64 - 2 ^ 32)

abbrev pub tmp_size : ℕ
tmp_size = 16

-- The value is copied to `char tmp[16]`, with a terminator behind it.
unfoldable pub content_length : PhrHeader → Outcome ℕ
unfolding strtol size_of_int
content_length h = do
  in_bounds (ltb h.value_len tmp_size)
  ok (size_of_int (strtol (strncpy h.value_len h.value)).value)

unfoldable pub is_named : Bytes → PhrHeader → Bool
is_named name h = strncmp_eq name h.name h.name_len

abbrev pub set_content_len : ℕ → HttpClient → HttpClient
set_content_len n client = record client { request = record request { content_len = n } }
  where
    request : HttpRequest
    request = client.request

unfoldable pub read_header : PhrHeader → HttpClient → Outcome HttpClient
unfolding content_length is_named strncmp_eq
read_header h client = do
  client' ← elim (is_named (codes "Content-Length") h) [
    | true ↦ do n ← content_length h; ok (set_content_len n client)
    | false ↦ ok client
  ]
  ok (
      if is_named (codes "Content-Type") h
        && strncmp_eq (codes "application/json") h.value h.value_len
      then record client' { is_json = true }
      else client')

unfoldable pub read_headers : List PhrHeader → HttpClient → Outcome HttpClient
unfolding read_header
read_headers [] client = ok client
read_headers (h ∷ hs) client = do client' ← read_header h client; read_headers hs client'

-- `RETURN_OK`, `RETURN_ERROR`, or 1 for more to come
pub data ParseReturn : Type 0 where
  return_ok return_error more : ParseReturn

abbrev pub store_request : PhrResult → HttpClient → HttpClient
store_request r client = record client {
  request = record request {
    method = r.method;
    method_len = r.method_len;
    path = r.path;
    path_len = r.path_len;
  };
}
  where
    request : HttpRequest
    request = client.request

abbrev pub complete_request : ℕ → HttpClient → HttpClient
complete_request header_len client = record client {
  request = record request { header_len = header_len };
  action = get_action_from_http_request request;
}
  where
    request : HttpRequest
    request = client.request

abbrev pub conclude : PhrReturn → HttpClient → HttpClient × ParseReturn
conclude (complete n) client = (complete_request n client, return_ok)
conclude malformed client = (client, return_error)
conclude incomplete client = (client, more)

-- `bytes` have been read behind the buffer; `buf_len` has not been moved yet.
unfoldable pub parse_http_buf : PhrParser → HttpClient → Bytes → Outcome (HttpClient × ParseReturn)
unfolding read_headers
parse_http_buf phr client bytes = do
  let r = phr (client.buf ++ bytes) (length client.buf)
  client' ← read_headers r.headers (store_request r client)
  ok (conclude r.pret client')
