-- ===== src/Tests/Posts.antt =====
-- POST requests with JSON bodies at concrete texts.
use lorawanatd_canarin.Base.{
  ℕ, ◌≡◌, ◌++◌, refl, inr, List, [], ◌∷◌, some, none, codes, Bytes, ok, drop, arith, strncmp_eq,
  print_u,
}
use lorawanatd_canarin.Command.Types.{Command, set}
use lorawanatd_canarin.Command.Make.{make_cmd, find_def, is_wanted, new_cmd}
use lorawanatd_canarin.Command.Table.{cmd_def_list}
use lorawanatd_canarin.State.{HttpClient, http_client_active, http_client_request_complete}
use lorawanatd_canarin.Push.{received}
use lorawanatd_canarin.Http.Request.{PhrParser, PhrHeader, complete, is_named}
use lorawanatd_canarin.Http.Json.{JsmnParser, JsmnTok, jsmn_array, jsmn_object, jsmn_string}
use lorawanatd_canarin.Http.Read.{on_read_http}
use lorawanatd_canarin.Http.Config.{flat}
use lorawanatd_canarin.Command.Construct.{construct, started}
use lorawanatd_canarin.Http.Sending.{url_sendb, on_read_http-send}
use lorawanatd_canarin.Http.Posted.{IsPost, on_read_http-get_config, on_read_http-set_config}
use lorawanatd_canarin.Tests.Samples.{client_of, dr_def, get_deui_def, waiting_ctx}

abbrev length_header : Bytes → PhrHeader
length_header value = record {
  name = codes "Content-Length: ";
  name_len = 14;
  value = value;
  value_len = 2;
}

abbrev type_header : PhrHeader
type_header = record {
  name = codes "Content-Type: ";
  name_len = 12;
  value = codes "application/json\r\n";
  value_len = 16;
}

-- A parser that has found a POST request with a head and a path of these lengths, and two headers.
abbrev post_phr : ℕ → ℕ → Bytes → PhrParser
post_phr head_len path_len value = λ text last. record {
  pret = complete head_len;
  method = text;
  method_len = 4;
  path = drop 5 text;
  path_len = path_len;
  headers = type_header ∷ length_header value ∷ [];
}

abbrev connected_client : HttpClient
connected_client = client_of 3 http_client_active []

abbrev get_bytes : Bytes
get_bytes =
    codes
      "POST /config/get HTTP/1.1\r\nContent-Type: application/json\r\nContent-Length: 14\r\n\r\n[\"device_eui\"]"

get-IsPost :
    IsPost
      (post_phr 81 11 (codes "14\r\n\r\n"))
      connected_client
      get_bytes
      (codes "/config/get")
      81
      14
unfolding is_named strncmp_eq print_u
get-IsPost = record {
  here = refl;
  whole = refl;
  text = record {
    method_in = omega arith;
    method_clean = ground arith;
    path_in = omega arith;
    path_clean = ground arith;
  };
  method = refl;
  path_is = refl;
  announced = (
    ((λ e. absurd (cc)), λ e. refl),
    (((λ e. (codes "\r\n\r\n", refl, refl)), λ e. absurd (cc)), tt),
  );
  has_length = refl;
  has_type = refl;
  positive = omega arith;
  small = omega arith;
  short = omega arith;
  arrived = omega arith;
  fits = omega arith;
}

abbrev list_top : JsmnTok
list_top = record { type = jsmn_array; start = 0; end = 14; size = 1 }

abbrev name_tok : JsmnTok
name_tok = record { type = jsmn_string; start = 2; end = 12; size = 0 }

abbrev list_jsmn : JsmnParser
list_jsmn = λ text n. some (list_top ∷ (name_tok ∷ [] ++ []))

on_read_http-get_config_example :
    (client' : HttpClient) × (on_read_http
        (post_phr 81 11 (codes "14\r\n\r\n"))
        list_jsmn
        (received get_bytes)
        connected_client
      ≡ ok client')
    × (client'.state ≡ http_client_request_complete)
    × (client'.cmdq ≡ new_cmd none 60 get_deui_def ∷ [])
unfolding make_cmd find_def is_wanted cmd_def_list strncmp_eq
on_read_http-get_config_example =
    on_read_http-get_config (post_phr 81 11 (codes "14\r\n\r\n")) list_jsmn connected_client
      get_bytes 81 14 list_top (name_tok ∷ []) [] (new_cmd none 60 get_deui_def ∷ []) get-IsPost
      refl refl refl (refl, refl, tt)

abbrev set_bytes : Bytes
set_bytes =
    codes
      "POST /config/set HTTP/1.1\r\nContent-Type: application/json\r\nContent-Length: 17\r\n\r\n{\"data_rate\":\"5\"}"

set-IsPost :
    IsPost
      (post_phr 81 11 (codes "17\r\n\r\n"))
      connected_client
      set_bytes
      (codes "/config/set")
      81
      17
unfolding is_named strncmp_eq print_u
set-IsPost = record {
  here = refl;
  whole = refl;
  text = record {
    method_in = omega arith;
    method_clean = ground arith;
    path_in = omega arith;
    path_clean = ground arith;
  };
  method = refl;
  path_is = refl;
  announced = (
    ((λ e. absurd (cc)), λ e. refl),
    (((λ e. (codes "\r\n\r\n", refl, refl)), λ e. absurd (cc)), tt),
  );
  has_length = refl;
  has_type = refl;
  positive = omega arith;
  small = omega arith;
  short = omega arith;
  arrived = omega arith;
  fits = omega arith;
}

abbrev object_top : JsmnTok
object_top = record { type = jsmn_object; start = 0; end = 17; size = 1 }

abbrev pair_toks : JsmnTok × JsmnTok
pair_toks = (
  record { type = jsmn_string; start = 2; end = 11; size = 1 },
  record { type = jsmn_string; start = 14; end = 15; size = 0 },
)

abbrev object_jsmn : JsmnParser
object_jsmn = λ text n. some (object_top ∷ (flat (pair_toks ∷ []) ++ []))

on_read_http-set_config_example :
    (client' : HttpClient) × (on_read_http
        (post_phr 81 11 (codes "17\r\n\r\n"))
        object_jsmn
        (received set_bytes)
        connected_client
      ≡ ok client')
    × (client'.state ≡ http_client_request_complete)
    × (client'.cmdq ≡ new_cmd (some (set (codes "5\"}") 1)) 60 dr_def ∷ [])
unfolding make_cmd find_def is_wanted cmd_def_list strncmp_eq
on_read_http-set_config_example =
    on_read_http-set_config (post_phr 81 11 (codes "17\r\n\r\n")) object_jsmn connected_client
      set_bytes 81 17 object_top (pair_toks ∷ []) []
      (new_cmd (some (set (codes "5\"}") 1)) 60 dr_def ∷ []) set-IsPost refl refl refl (refl, tt)

abbrev sendb_bytes : Bytes
sendb_bytes =
    codes
      "POST /sendb HTTP/1.1\r\nContent-Type: application/json\r\nContent-Length: 26\r\n\r\n{\"port\":\"21\",\"data\":\"ff2\"}"

sendb-IsPost :
    IsPost (post_phr 76 6 (codes "26\r\n\r\n")) connected_client sendb_bytes (codes "/sendb") 76 26
unfolding is_named strncmp_eq print_u
sendb-IsPost = record {
  here = refl;
  whole = refl;
  text = record {
    method_in = omega arith;
    method_clean = ground arith;
    path_in = omega arith;
    path_clean = ground arith;
  };
  method = refl;
  path_is = refl;
  announced = (
    ((λ e. absurd (cc)), λ e. refl),
    (((λ e. (codes "\r\n\r\n", refl, refl)), λ e. absurd (cc)), tt),
  );
  has_length = refl;
  has_type = refl;
  positive = omega arith;
  small = omega arith;
  short = omega arith;
  arrived = omega arith;
  fits = omega arith;
}

abbrev string_tok : ℕ → ℕ → JsmnTok
string_tok start end = record { type = jsmn_string; start = start; end = end; size = 0 }

abbrev sendb_toks : List JsmnTok
sendb_toks = string_tok 2 6 ∷ string_tok 9 11 ∷ string_tok 14 18 ∷ string_tok 21 24 ∷ []

abbrev sendb_top : JsmnTok
sendb_top = record { type = jsmn_object; start = 0; end = 26; size = 2 }

on_read_http-send_example :
    (client' : HttpClient) × (cmd : Command) × (on_read_http
        (post_phr 76 6 (codes "26\r\n\r\n"))
        (λ text n. some (sendb_top ∷ (sendb_toks ++ [])))
        (received sendb_bytes)
        connected_client
      ≡ ok client')
    × (client'.state ≡ http_client_request_complete)
    × (client'.cmdq ≡ cmd ∷ [])
    × (construct cmd.def.construct_cmd waiting_ctx 9 cmd
        ≡ ok (started waiting_ctx 9 cmd (codes "AT+SEND=21:1:ff2")))
on_read_http-send_example =
    on_read_http-send (post_phr 76 6 (codes "26\r\n\r\n"))
      (λ text n. some (sendb_top ∷ (sendb_toks ++ []))) connected_client sendb_bytes 76 26 url_sendb
      sendb_top (string_tok 14 18) (string_tok 21 24) (string_tok 2 6) (string_tok 9 11) sendb_toks
      [] (codes "ff2") (codes "21") waiting_ctx 9 sendb-IsPost refl refl refl (inr refl)
      (codes "\":\"ff2\"}", refl, refl) (codes "\"}", refl, refl)
      (codes "\":\"21\",\"data\":\"ff2\"}", refl, refl) (codes "\",\"data\":\"ff2\"}", refl, refl)
      (ground arith) (ground arith) (omega arith)
