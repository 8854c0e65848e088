-- ===== src/Tests/Requests.antt =====
-- Requests and replies at concrete texts.
use lorawanatd_canarin.Base.{
  drop, ℕ, ◌≡◌, refl, [], ◌∷◌, codes, Bytes, ok, print_u, arith, strncmp_eq, starts_with,
}
use lorawanatd_canarin.Command.Types.{Command, zeroed, cmd_executing}
use lorawanatd_canarin.State.{
  http_client_active, HttpRequest, HttpClient, http_reset, http_client_request_complete,
}
use lorawanatd_canarin.Http.Route.{routes, get_action_from_http_request}
use lorawanatd_canarin.Http.Prefix.{
  IsText, FirstBegins, get_action-FirstBegins, get_action-short_path,
}
use lorawanatd_canarin.Push.{received}
use lorawanatd_canarin.Http.Read.{on_read_http}
use lorawanatd_canarin.Http.Simple.{url_join, on_read_http-url}
use lorawanatd_canarin.Http.Request.{PhrParser, complete, is_named, PhrHeader, content_length}
use lorawanatd_canarin.Http.Length.{content_length-number}
use lorawanatd_canarin.Tests.Samples.{no_jsmn, cmd_of, client_of, join_def}

-- `GET / HTTP/1.1`
abbrev root_request : HttpRequest
root_request = record {
  path = codes "/ HTTP/1.1\r\n\r\n";
  path_len = 1;
  method = codes "GET / HTTP/1.1\r\n\r\n";
  method_len = 3;
  content = [];
  content_len = 0;
  header_len = 18;
}

root_request-IsText : IsText root_request
root_request-IsText = record {
  method_in = omega arith;
  method_clean = ground arith;
  path_in = omega arith;
  path_clean = ground arith;
}

get_action-FirstBegins_example :
    FirstBegins root_request (get_action_from_http_request root_request) routes
get_action-FirstBegins_example = get_action-FirstBegins root_request root_request-IsText

get_action-short_path_example : get_action_from_http_request root_request ≡ http_reset
unfolding starts_with
get_action-short_path_example = get_action-short_path root_request root_request-IsText refl refl

abbrev header_of : Bytes → ℕ → PhrHeader
header_of value n = record {
  name = codes "Content-Length";
  name_len = 14;
  value = value;
  value_len = n;
}

content_length-number_example : content_length (header_of (codes "27\r\n") 2) ≡ ok 27
unfolding print_u
content_length-number_example =
    content_length-number (header_of (codes "27\r\n") 2) 27 (codes "\r\n") refl refl (omega arith)
      (omega arith)

abbrev joining : Command
joining = cmd_of join_def zeroed cmd_executing []

abbrev joining_client : HttpClient
joining_client = client_of 3 http_client_request_complete (joining ∷ [])

-- `GET /join` with a header that names the host.
abbrev join_phr : PhrParser
join_phr = λ text last. record {
  pret = complete 32;
  method = text;
  method_len = 3;
  path = drop 4 text;
  path_len = 5;
  headers =
      record {
        name = codes "Host: a\r\n\r\n";
        name_len = 4;
        value = codes "a\r\n\r\n";
        value_len = 1;
      }
      ∷ [];
}

abbrev join_bytes : Bytes
join_bytes = codes "GET /join HTTP/1.1\r\nHost: a\r\n\r\n"

on_read_http-url_example :
    (client' : HttpClient) × (cmd : Command) × (on_read_http join_phr no_jsmn
        (received join_bytes)
        (client_of 3 http_client_active [])
      ≡ ok client')
    × (client'.state ≡ http_client_request_complete)
    × (client'.cmdq ≡ cmd ∷ [])
    × (cmd.def.cmd ≡ codes "AT+JOIN")
    × (cmd.timeout ≡ 60)
unfolding is_named strncmp_eq
on_read_http-url_example =
    on_read_http-url join_phr no_jsmn url_join (client_of 3 http_client_active []) join_bytes 32
      refl refl refl refl ((refl, refl), tt)
      (record {
        method_in = omega arith;
        method_clean = ground arith;
        path_in = omega arith;
        path_clean = ground arith;
      })
      refl refl
