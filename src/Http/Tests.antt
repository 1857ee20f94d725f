-- ===== src/Http/Tests.antt =====
-- The server's theorems at concrete inputs.
use kode.Prelude.{◌≡◌, refl, true, List, [], ◌∷◌, ◌++◌, none, some, pos}
use kode.Text.{Bytes, codes, equal, find, starts_with}
use kode.Text.Dict.{lookup, insert}
use kode.Http.{Handler, Server, add_route, find_route, answer, handle_request, serialize}
use kode.Http.Routing.{answer_route}
use kode.Http.Lines.{joined}
use kode.Http.Response.{read_response, head_lines, no_return-NoReturn, read_response-serialize}
use kode.Http.Connection.{
  read, written, bytes, end_of_stream, accept, run, IsAnswered, run-IsAnswered, arriving,
  run-arriving,
}

abbrev pong : Handler
pong method path raw = record {
  status = pos 200;
  content_type = codes "text/plain";
  body = codes "pong";
  headers = (codes "X-Kode", codes "1") ∷ [];
}

abbrev missing : Handler
missing method path raw = record {
  status = pos 404;
  content_type = codes "text/plain";
  body = [];
  headers = [];
}

abbrev empty_server : Server
empty_server = record { running = true; handler = none; routes = [] }

abbrev server : Server
server = record {
  running = true;
  handler = none;
  routes = (codes "GET", (codes "/ping", pong) ∷ (codes "/none", missing) ∷ []) ∷ [];
}

added_route :
    find_route
      (codes "GET")
      (codes "/ping")
      (add_route (codes "GET") (codes "/ping") pong empty_server).routes
    ≡ some pong
unfolding find_route add_route equal lookup insert
added_route = refl

abbrev ping : Bytes
ping = codes "GET /ping HTTP/1.1\r\nHost: kode\r\n\r\n"

empty_body_replaced : answer server (codes "GET") (codes "/none") [] ≡ record {
  status = pos 200;
  content_type = codes "text/plain";
  body = codes "Hello from Kode HTTP";
  headers = [];
}
unfolding answer find_route lookup equal
empty_body_replaced = refl

answer_route_example :
    answer server (codes "GET") (codes "/ping") ping ≡ pong (codes "GET") (codes "/ping") ping
unfolding find_route lookup equal
answer_route_example =
    answer_route server (codes "GET") (codes "/ping") ping pong b'p' (codes "ong") refl refl

read_response-serialize_example :
    read_response (serialize (pong [] [] []))
    ≡ some (joined (head_lines (pong [] [] [])), codes "pong")
read_response-serialize_example = read_response-serialize (pong [] [] []) (
  no_return-NoReturn (codes "text/plain") refl,
  ((no_return-NoReturn (codes "X-Kode") refl, no_return-NoReturn (codes "1") refl), tt),
)

run-IsAnswered_example :
    IsAnswered server (run server (read (bytes ping) ∷ written ∷ []) (accept true))
run-IsAnswered_example = run-IsAnswered server (read (bytes ping) ∷ written ∷ []) true

abbrev chunks : List Bytes
chunks = codes "GET /pi" ∷ codes "ng HTTP/1.1\r\n" ∷ codes "\r" ∷ []

run-arriving_example :
    (run server (arriving (chunks ++ (codes "\n" ∷ []))) (accept true)).writes
    ≡ handle_request server (codes "GET /ping HTTP/1.1\r\n\r\n") ∷ []
unfolding find starts_with
run-arriving_example = run-arriving server chunks (codes "\n") refl refl

-- The client ends its stream before the response is written: the handle is closed twice.
closes_twice :
    (run server (read (bytes ping) ∷ read end_of_stream ∷ written ∷ []) (accept true)).closes ≡ 2
unfolding run accept find starts_with
closes_twice = refl
