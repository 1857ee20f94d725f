-- ===== src/Http/Routing.antt =====
-- Which handler answers a request.
use kode.Prelude.{
  ℕ, ◌+◌, ◌-◌, ◌≡◌, refl, false, [], ◌∷◌, ◌++◌, none, some, pos, arith, ◌==◌, if◌then◌else◌, length,
  All, take-length_append, drop_past,
}
use kode.Text.{Bytes, codes, equal, find_from}
use kode.Text.Find.{equal_iff, find_first-append, find-find_first}
use kode.Text.Dict.{lookup, insert, lookup-insert}
use kode.Http.{Handler, Server, add_route, or_nil, find_route, answer, request_line, space}

-- Looking up a route after one is added: the new one for its own method and path, and as before for
-- every other.
pub find_route-add_route :
    (m p : Bytes) (h : Handler) (s : Server) (method path : Bytes)
    → find_route method path (add_route m p h s).routes ≡ (
        if equal m method
        then if equal p path then some h else find_route method path s.routes
        else find_route method path s.routes)
unfolding find_route add_route
find_route-add_route m p h s method path =
    rw (lookup-insert m method (insert p h (or_nil (lookup m s.routes))) s.routes)
      (ground (arith, lookup-insert p path h (or_nil (lookup m s.routes)), equal_iff m method))

second_space :
    (method path rest : Bytes)
    → All (λ c. (b' ' == c) ≡ false) path
    → find_from (codes " ") (method ++ (b' ' ∷ (path ++ (b' ' ∷ rest)))) (length method + 1)
      ≡ some (length method + 1 + length path)
unfolding find_from
second_space method path rest k = rw (
  drop_past method (b' ' ∷ (path ++ (b' ' ∷ rest))) 1,
  find-find_first b' ' (path ++ (b' ' ∷ rest)),
  find_first-append (λ d. b' ' == d) path b' ' rest k refl,
)

path_length : (m p : ℕ) → m + 1 + p - m - 1 ≡ p
path_length m p = omega arith

-- The request line gives the method and the path back, whatever follows them; for a method and a
-- path with no space.
pub request_line-words :
    (method path rest : Bytes)
    → All (λ c. (c == b' ') ≡ false) method
    → All (λ c. (b' ' == c) ≡ false) path
    → request_line (method ++ (b' ' ∷ (path ++ (b' ' ∷ rest)))) ≡ (method, path)
unfolding request_line
request_line-words method path rest h k = rw (
  find_first-append space method b' ' (path ++ (b' ' ∷ rest)) h refl,
  second_space method path rest k,
  take-length_append method (b' ' ∷ (path ++ (b' ' ∷ rest))),
  drop_past method (b' ' ∷ (path ++ (b' ' ∷ rest))) 1,
  path_length (length method) (length path),
  take-length_append path (b' ' ∷ rest),
)

-- An answer with an empty body is not sent: the request goes to the fallback handler, or gets the
-- default text with status 200, whatever status and headers the route's handler chose.
pub answer_empty_body :
    (s : Server) (method path raw : Bytes) (h : Handler)
    → find_route method path s.routes ≡ some h
    → (h method path raw).body ≡ []
    → answer s method path raw ≡ elim s.handler [
      | some fallback ↦ fallback method path raw
      | none ↦ record (h method path raw) {
        status = pos 200;
        content_type = codes "text/plain";
        body = codes "Hello from Kode HTTP";
      }
    ]
unfolding answer
answer_empty_body s method path raw h e b = ground arith

-- A route whose handler gives a body answers, whatever the fallback is.
pub answer_route :
    (s : Server) (method path raw : Bytes) (h : Handler) (c : ℕ) (body : Bytes)
    → find_route method path s.routes ≡ some h
    → (h method path raw).body ≡ c ∷ body
    → answer s method path raw ≡ h method path raw
unfolding answer
answer_route s method path raw h c body e b = ground arith
