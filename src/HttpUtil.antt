-- ===== src/HttpUtil.antt =====
-- src/http_util.cpp: files and directory listings as HTTP responses.
--
-- The file system is a parameter: what kind of thing a path names, what opening a file gives, and
-- what a directory holds, in the order of the iterator. `std::map` sorts the names.
pub mod Paths
pub mod Kept
pub mod Replies
use prime_server.Prelude.{
  ℕ, zero, suc, ◌+◌, Bool, true, false, not, ◌&&◌, ◌||◌, Option, none, some, List, [], ◌∷◌, ◌++◌,
  ltb, leb, ◌==◌, if◌then◌else◌, length, drop, Bytes, codes, equal,
}
use prime_server.Prelude.Maps.{Key, bytes_key, find}
use prime_server.Stdlib.{to_lower}
use prime_server.Http.{Headers, insert_header}
use prime_server.Http.Request.{HttpRequest}
use prime_server.Http.Message.{HttpRequestInfo, HttpResponse, from_info, response_to_string, cors}
use prime_server.Worker.{WorkResult}

abbrev pub mime : Bytes → Bytes × Bytes
mime kind = (codes "Content-type", kind)

abbrev pub default_mime : Bytes × Bytes
default_mime = mime (codes "application/octet-stream")

abbrev pub html_mime : Bytes × Bytes
html_mime = mime (codes "text/html")

-- `load_mimes`.
unfoldable pub mimes : List (Bytes × (Bytes × Bytes))
mimes =
    (codes "htm", html_mime)
    ∷ (codes "html", html_mime)
    ∷ (codes "js", mime (codes "application/javascript"))
    ∷ (codes "json", mime (codes "application/json"))
    ∷ (codes "jpg", mime (codes "image/jpeg"))
    ∷ (codes "jpeg", mime (codes "image/jpeg"))
    ∷ []

-- `substr(find_last_of('.') + 1)`; without a dot, `npos + 1` is 0 and the whole is taken.
unfoldable pub behind_last : Bytes → Bytes → Bytes
behind_last whole [] = whole
behind_last whole (c ∷ cs) = behind_last (if c == b'.' then cs else whole) cs

unfoldable pub lower : Bytes → Bytes
unfolding to_lower
lower [] = []
lower (c ∷ cs) = to_lower c ∷ lower cs

abbrev pub or_default : Bytes × Bytes → Option (Bytes × Bytes) → Bytes × Bytes
or_default header none = header
or_default header (some found) = found

unfoldable pub mime_header : Bytes → Bytes × Bytes → Bytes × Bytes
unfolding behind_last lower mimes
mime_header file_name header =
    or_default header (find (lower (behind_last file_name file_name)) mimes)

abbrev pub shifted : Option ℕ → Option ℕ
shifted none = none
shifted (some i) = some (suc i)

-- `s.find('.')`, and `path.find('.', i)`.
unfoldable pub find_dot : Bytes → Option ℕ
find_dot [] = none
find_dot (c ∷ cs) = let rest = find_dot cs in if c == b'.' then some 0 else shifted rest

abbrev pub plus : ℕ → Option ℕ → Option ℕ
plus n none = none
plus n (some i) = some (n + i)

unfoldable pub find_dot_from : ℕ → Bytes → Option ℕ
unfolding find_dot
find_dot_from i s = plus i (find_dot (drop i s))

-- `path[i] = c`.
unfoldable pub put : ℕ → ℕ → Bytes → Bytes
put i c [] = []
put zero c (x ∷ xs) = c ∷ xs
put (suc i) c (x ∷ xs) = x ∷ put i c xs

-- Two dots side by side become slashes.
unfoldable pub blank_pair : ℕ → ℕ → Bytes → Bytes
unfolding put
blank_pair p i path = if p + 1 == i then put i b'/' (put p b'/' path) else path

-- The `for` loop, at the dot before and at this one.
unfoldable pub blank_loop : ℕ → ℕ → Option ℕ → Bytes → Bytes
unfolding blank_pair find_dot_from
blank_loop zero p o path = path
blank_loop (suc fuel) p none path = path
blank_loop (suc fuel) p (some i) path =
    let blanked = blank_pair p i path in blank_loop fuel i (find_dot_from (i + 1) blanked) blanked

-- Each round is at a later dot, so a round for each byte is enough.
unfoldable pub blank_dots : Bytes → Bytes
unfolding blank_loop
blank_dots path = blank_loop (length path) (length path) (find_dot_from 0 path) path

pub data FileStatus : Type 0 where
  regular : ℕ → FileStatus
  directory : FileStatus
  other : FileStatus

pub record FileSystem : Type 0 where
  pub status : Bytes → FileStatus
  -- `none` if it cannot be opened
  pub contents : Bytes → Option Bytes
  pub entries : Bytes → List (Bytes × Bool)

-- `std::string::operator<`.
unfoldable pub less : Bytes → Bytes → Bool
less s [] = false
less [] (d ∷ t) = true
less (c ∷ s) (d ∷ t) = ltb c d || (c == d && less s t)

-- `std::map::emplace`.
unfoldable pub insert_entry : Bytes × Bool → List (Bytes × Bool) → List (Bytes × Bool)
unfolding less
insert_entry entry [] = entry ∷ []
insert_entry entry (first ∷ rest) =
    if less entry.0 first.0
    then entry ∷ first ∷ rest
    else if less first.0 entry.0
    then first ∷ insert_entry entry rest
    else first ∷ rest

unfoldable pub sort_entries : List (Bytes × Bool) → List (Bytes × Bool) → List (Bytes × Bool)
unfolding insert_entry
sort_entries sorted [] = sorted
sort_entries sorted (entry ∷ rest) = sort_entries (insert_entry entry sorted) rest

unfoldable pub list_entry : Bytes → Bool → Bytes
list_entry name false = codes "<a href='" ++ (name ++ (codes "'>" ++ (name ++ codes "</a><br/>")))
list_entry name true =
    if not (equal name (codes "."))
    then codes "<a href='" ++ (name ++ (codes "/'>" ++ (name ++ codes "</a><br/>")))
    else []

unfoldable pub listing : List (Bytes × Bool) → Bytes
unfolding list_entry
listing [] = []
listing ((name, is_dir) ∷ rest) = list_entry name is_dir ++ listing rest

-- The result and the info, which gets the response code.
abbrev pub Reply : Type 0
Reply = WorkResult × HttpRequestInfo

unfoldable pub reply : HttpResponse → HttpRequestInfo → Reply
unfolding from_info response_to_string
reply response info =
    let (made, marked) = from_info response info in
    (
      record { intermediate = false; messages = response_to_string made ∷ []; heart_beat = [] },
      marked,
    )

-- `http_response_t(200, "OK", body, headers_t{CORS, mime})`.
unfoldable pub ok : Bytes → Bytes × Bytes → HttpResponse
unfolding insert_header
ok body (name, v) = record {
  code = 200;
  message = codes "OK";
  headers = insert_header name v cors;
  body = body;
  version = codes "HTTP/1.1";
}

abbrev pub not_found : HttpResponse
not_found = record {
  code = 404;
  message = codes "Not Found";
  headers = [];
  body = codes "Not Found";
  version = codes "HTTP/1.1";
}

-- A regular file that is not too large; one that cannot be opened leaves the result empty.
unfoldable pub file_reply : Bytes → HttpRequestInfo → Option Bytes → Reply
unfolding reply ok mime_header
file_reply path info none = (record { intermediate = false; messages = []; heart_beat = [] }, info)
file_reply path info (some buffer) = reply (ok buffer (mime_header path default_mime)) info

unfoldable pub status_reply :
    FileSystem → Bytes → Bytes → HttpRequestInfo → Bool → ℕ → FileStatus → Reply
unfolding file_reply reply ok listing sort_entries
status_reply files path canonical info allow_listing size_limit (regular size) =
    if leb size size_limit
    then file_reply path info (files.contents canonical)
    else reply not_found info
status_reply files path canonical info allow_listing size_limit directory =
    if allow_listing
    then reply (ok (listing (sort_entries [] (files.entries canonical))) html_mime) info
    else reply not_found info
status_reply files path canonical info allow_listing size_limit other = reply not_found info

unfoldable pub disk_result : FileSystem → HttpRequest → HttpRequestInfo → Bytes → Bool → ℕ → Reply
unfolding status_reply blank_dots
disk_result files request info root allow_listing size_limit =
    let path = blank_dots request.path in
    status_reply files path (root ++ path) info allow_listing size_limit
      (files.status (root ++ path))
