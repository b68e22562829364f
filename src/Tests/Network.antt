-- ===== src/Tests/Network.antt =====
-- Tests of the HTTP client.
use socker.Prelude.{◌≡◌, refl, inl, true, none, some, [], ◌∷◌, nat_eq, arith}
use socker.Text.{Text, bytes, text_eq}
use socker.Text.Laws.{IsClean}
use socker.Boost.Reference.{reference}
use socker.HttpClient.Request as HttpRequest
use socker.HttpClient.Sending as HttpSending
use socker.HttpClient.Request.{make_request, to_string}
use socker.HttpClient.Sending.{Exchange, shut, Reply, sync_send}
use socker.HttpClient.Urls.{make_request-to_string}
use socker.HttpClient.Sending.{
  get_url, post_url, put_url, del_url, sync_get_url, sync_post_url, sync_put_url, sync_del_url,
}
use socker.HttpClient.Replies.{EndsWith, do_send_lem}

abbrev host : Text
host = bytes "ab.c"

IsClean-host : IsClean host
IsClean-host = ground arith

abbrev page : HttpRequest.Url
page = record { protocol = bytes "http"; host = host; port = bytes "80"; resource = bytes "/x" }

make_request-to_string_example : (make_request reference (to_string page) [] [] none).url ≡ page
make_request-to_string_example =
    make_request-to_string reference (bytes "http") host (bytes "80") (bytes "x") [] [] none
      (inl refl) (omega arith) IsClean-host (ground arith) refl

abbrev pub request : HttpRequest.Request
request = record { url = page; head = []; body = []; timeout = none }

abbrev pub exchange : Exchange
exchange = record {
  resolve = none;
  connect = none;
  write = none;
  read = none;
  response = record { result = 200; fields = []; body = bytes "ok" };
  shutdown = shut;
}

do_send_lem_example :
    (r : Reply) × ((HttpSending.do_send
        (some 30)
        (bytes "Beast")
        (λ n. [])
        true
        2
        request
        exchange).replies
      ≡ r ∷ [])
    × (sync_send (some 30) (bytes "Beast") (λ n. []) 2 request exchange ≡ some r)
    × EndsWith (some 30) (bytes "Beast") (λ n. []) 2 request exchange r
do_send_lem_example = do_send_lem (some 30) (bytes "Beast") (λ n. []) 2 request exchange
