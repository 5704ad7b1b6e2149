-- ===== src/Programs/Files.antt =====
-- The work functions of src/prime_filed.cpp, src/prime_echod.cpp and src/prime_workerd.cpp: files,
-- echoes, and files below the working directory.
--
-- The file system is a parameter, as is what libcurl's `unescape` does.
use prime_server.Prelude.{
  ◌*◌, ◌||◌, true, Option, none, some, List, [], ◌∷◌, ◌==◌, if◌then◌else◌, Bytes, codes,
}
use prime_server.Http.{Method}
use prime_server.Http.Request.{HttpRequest, Failure}
use prime_server.Http.Request
use prime_server.Http.Strings.{Whole, whole, incomplete, rejected, request_from_string}
use prime_server.Http.Message.{HttpRequestInfo}
use prime_server.HttpUtil.{FileSystem, Reply, disk_result}
use prime_server.Programs.Primes.{JobResult, works, throws, terminates, undefined, plain, respond}

abbrev answered : Reply → JobResult
answered (result, info) = works result info

-- A `RequestException` is no `std::exception`.
unfoldable pub disk_whole :
    FileSystem → Bytes → HttpRequestInfo → Whole HttpRequest Failure → JobResult
unfolding disk_result respond
disk_whole files root info (whole r) =
    answered (disk_result files r info root true (1024 * 1024 * 1024))
disk_whole files root info incomplete =
    respond (plain 400 (codes "Bad Request") (codes "Incomplete http request")) info
disk_whole files root info (rejected Request.runtime_error) =
    respond (plain 400 (codes "Bad Request") (codes "url decoding failed")) info
disk_whole files root info (rejected _) = terminates

-- `disk_work` of prime_filed.
unfoldable pub disk_work :
    (Bytes → Option Bytes) → Method → FileSystem → Bytes → List Bytes → HttpRequestInfo → JobResult
unfolding disk_whole request_from_string
disk_work unescape method files root [] info = undefined
disk_work unescape method files root (first ∷ _) info =
    disk_whole files root info (request_from_string unescape method first)

-- The worker of prime_echod.
unfoldable pub echo_work : List Bytes → HttpRequestInfo → JobResult
unfolding respond
echo_work [] info = undefined
echo_work (first ∷ _) info = respond (plain 200 (codes "OK") first) info

-- prime_workerd: `request.path.c_str() + pos`, behind the slashes and dots at the front.
unfoldable pub skip_front : Bytes → Bytes
skip_front [] = []
skip_front (c ∷ cs) = let rest = skip_front cs in if c == b'/' || c == b'.' then rest else c ∷ cs

-- The answer with what was read; without a file `tellg` is -1, and `reserve` throws, which is caught.
unfoldable pub static_found : HttpRequestInfo → Option Bytes → JobResult
unfolding respond
static_found info none = respond (plain 404 (codes "Not Found") []) info
static_found info (some body) = respond (plain 200 (codes "OK") body) info

-- `from_string` is outside the `try` block.
unfoldable pub static_whole :
    (Bytes → Option Bytes) → HttpRequestInfo → Whole HttpRequest Failure → JobResult
unfolding static_found skip_front
static_whole contents info (whole r) = static_found info (contents (skip_front r.path))
static_whole contents info incomplete = throws
static_whole contents info (rejected Request.runtime_error) = throws
static_whole contents info (rejected _) = terminates

-- The worker of prime_workerd.
unfoldable pub static_work :
    (Bytes → Option Bytes)
    → Method
    → (Bytes → Option Bytes)
    → List Bytes
    → HttpRequestInfo
    → JobResult
unfolding static_whole request_from_string
static_work unescape method contents [] info = undefined
static_work unescape method contents (first ∷ _) info =
    static_whole contents info (request_from_string unescape method first)
