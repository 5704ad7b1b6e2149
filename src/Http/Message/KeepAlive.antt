-- ===== src/Http/Message/KeepAlive.antt =====
-- Which connections are kept open.
use prime_server.Prelude.{ℕ, not, if◌then◌else◌, codes, equal, ◌≡◌, arith, Bool-cases, inl, inr}
use prime_server.Http.{find_header}
use prime_server.Http.Request.{HttpRequest}
use prime_server.Http.Message.{to_info, keep_alive, has_value}

-- A connection is kept open after an HTTP/1.0 request exactly if its `Connection` header is
-- `Keep-Alive`, and after any other exactly if that header is not `Close`, in this spelling.
pub keep_alive-to_info :
    (r : HttpRequest) (id now : ℕ)
    → keep_alive (to_info r id now) ≡ (
        if equal r.version (codes "HTTP/1.0")
        then has_value (find_header (codes "Connection") r.headers) (codes "Keep-Alive")
        else not (has_value (find_header (codes "Connection") r.headers) (codes "Close")))
unfolding keep_alive to_info
keep_alive-to_info r id now = elim (Bool-cases (equal r.version (codes "HTTP/1.0"))) [
  | inl old ↦ rw old (ground arith)
  | inr new ↦ rw new (ground arith)
]
