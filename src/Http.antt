-- ===== src/Http.antt =====
-- src/http/http_server.h and http_server.cc: the server's state, its routes and `handle_request`.
-- libuv is outside: what its calls return is an argument, and what the server asks of it (a write, a
-- close) is recorded.
pub mod Lines
pub mod Response
pub mod Routing
pub mod Connection
mod Tests
use kode.Prelude.{
  ℕ, ◌+◌, ◌-◌, Bool, true, false, ◌&&◌, not, List, [], ◌∷◌, ◌++◌, Option, none, some, ℤ, pos,
  negsuc, ◌==◌, if◌then◌else◌, length, take,
}
use kode.Text.{Bytes, codes, is_empty, find_from, find_first, substr}
use kode.Text.Decimal.{to_string, to_string_int}
use kode.Text.Dict.{lookup, insert}

-- `HttpServer::Response`, with the defaults of its fields.
pub record Reply : Type 0 where
  pub status : ℤ
  pub content_type : Bytes
  pub body : Bytes
  pub headers : List (Bytes × Bytes)

abbrev pub default_reply : Reply
default_reply = record {
  status = pos 200;
  content_type = codes "text/plain";
  body = [];
  headers = [];
}

-- Method, path and raw request.
abbrev pub Handler : Type 0
Handler = Bytes → Bytes → Bytes → Reply

abbrev pub Routes : Type 0
Routes = List (Bytes × List (Bytes × Handler))

pub record Server : Type 0 where
  pub running : Bool
  pub handler : Option Handler
  pub routes : Routes

-- What the three libuv calls of `start` say: true is a result of 0.
pub record Listening : Type 0 where
  pub address : Bool
  pub bind : Bool
  pub listen : Bool

unfoldable pub start : Listening → Server → Server × Bool
start uv s =
    if s.running
    then (s, true)
    else if uv.address && uv.bind && uv.listen
    then (record s { running = true }, true)
    else (s, false)

-- With the number of handles that it closes.
unfoldable pub stop : Server → Server × ℕ
stop s = if s.running then (record s { running = false }, 1) else (s, 0)

unfoldable pub set_handler : Handler → Server → Server
set_handler h s = record s { handler = some h }

or_nil {ℓ} : {A : Type ℓ} → Option (List A) → List A
or_nil none = []
or_nil (some xs) = xs

-- `routes_[method][path] = h`.
unfoldable pub add_route : Bytes → Bytes → Handler → Server → Server
unfolding or_nil
add_route method path h s = record s {
  routes = insert method (insert path h (or_nil (lookup method s.routes))) s.routes;
}

abbrev space : ℕ → Bool
space c = c == b' '

request_path : Bytes → ℕ → Option ℕ → Bytes
request_path buffer sp1 none = codes "/"
request_path buffer sp1 (some sp2) = substr buffer (sp1 + 1) (sp2 - sp1 - 1)

request_line_from : Bytes → Option ℕ → Bytes × Bytes
request_line_from buffer none = (codes "GET", codes "/")
request_line_from buffer (some sp1) =
    (substr buffer 0 sp1, request_path buffer sp1 (find_from (codes " ") buffer (sp1 + 1)))

-- The method and the path of `METHOD PATH …`.
unfoldable pub request_line : Bytes → Bytes × Bytes
unfolding request_line_from request_path
request_line buffer = request_line_from buffer (find_first space buffer)

-- The route's answer; `none` where there is no such route.
unfoldable pub find_route : Bytes → Bytes → Routes → Option Handler
unfolding or_nil
find_route method path routes = lookup path (or_nil (lookup method routes))

route_reply : Bytes → Bytes → Bytes → Option Handler → Reply
route_reply method path raw none = default_reply
route_reply method path raw (some h) = h method path raw

fallback_reply : Bytes → Bytes → Bytes → Option Handler → Reply → Reply
fallback_reply method path raw (some h) reply = h method path raw
fallback_reply method path raw none reply = record reply {
  status = pos 200;
  content_type = codes "text/plain";
  body = codes "Hello from Kode HTTP";
}

-- The route first; an empty body makes way for the fallback.
unfoldable pub answer : Server → Bytes → Bytes → Bytes → Reply
unfolding route_reply fallback_reply
answer s method path raw =
    let reply = route_reply method path raw (find_route method path s.routes) in
    if is_empty reply.body then fallback_reply method path raw s.handler reply else reply

is_status : ℕ → ℤ → Bool
is_status n (pos m) = m == n
is_status n (negsuc m) = false

unfoldable pub status_text : ℤ → Bytes
unfolding is_status
status_text status =
    if is_status 404 status
    then codes "Not Found"
    else if is_status 500 status
    then codes "Internal Server Error"
    else codes "OK"

abbrev pub crlf : Bytes
crlf = b'\r' ∷ b'\n' ∷ []

-- The loop over `resp.headers`.
unfoldable pub header_lines : List (Bytes × Bytes) → Bytes
header_lines [] = []
header_lines ((name, value) ∷ rest) = name ++ (codes ": " ++ (value ++ (crlf ++ header_lines rest)))

-- The text of the response.
unfoldable pub serialize : Reply → Bytes
serialize r =
    codes "HTTP/1.1 "
    ++ (to_string_int r.status
        ++ (codes " "
            ++ (status_text r.status
                ++ (crlf
                    ++ (codes "Connection: close"
                        ++ (crlf
                            ++ (codes "Content-Type: "
                                ++ (r.content_type
                                    ++ (crlf
                                        ++ (header_lines r.headers
                                            ++ (codes "Content-Length: "
                                                ++ (to_string (length r.body)
                                                    ++ (crlf ++ (crlf ++ r.body))))))))))))))

-- `handle_request`, up to the write: the bytes that it hands to `uv_write`.
unfoldable pub handle_request : Server → Bytes → Bytes
handle_request s buffer =
    let (method, path) = request_line buffer in serialize (answer s method path buffer)
