-- ===== src/Tests/Files.antt =====
-- Runs of the file answers and their theorems at concrete inputs.
use prime_server.Prelude.{
  ◌≡◌, refl, ap, subst, true, false, none, [], ◌++◌, drop, Bytes, codes, equal, equal-same,
  Bool-cases, inl, inr, ◌↔◌, if◌then◌else◌,
}
use prime_server.Http.{get}
use prime_server.Http.Request.{HttpRequest, fresh}
use prime_server.Http.Message.{HttpRequestInfo}
use prime_server.HttpUtil.{
  FileSystem, FileStatus, regular, directory, other, disk_result, blank_dots,
}
use prime_server.HttpUtil.Paths.{LacksPairs}
use prime_server.HttpUtil.Replies.{SameAt, IsUnreadable, disk_result-SameAt, disk_result-messages}

abbrev pub info : HttpRequestInfo
info = record {
  id = 0;
  time_stamp = 100;
  version = 1;
  connection_keep_alive = false;
  connection_close = false;
  response_code = 0;
}

abbrev request_for : Bytes → HttpRequest
request_for path = record (fresh get) { path = path }

-- A directory above the root is there, or is not.
abbrev with_parent : FileStatus → FileSystem
with_parent parent = record {
  status = λ path. if equal path (codes "/srv/..") then parent else other;
  contents = λ path. none;
  entries = λ path. [];
}

blank_dots_run : blank_dots (codes "/../a.txt") ≡ codes "///" ++ codes "/a.txt"
unfolding blank_dots
blank_dots_run = refl

with_parent-SameAt :
    (path : Bytes)
    → LacksPairs path
    → SameAt (with_parent directory) (with_parent other) (codes "/srv" ++ path)
with_parent-SameAt path h = elim (Bool-cases (equal (codes "/srv" ++ path) (codes "/srv/.."))) [
  | inl same ↦
      let eq : path ≡ codes "/.." =
        ap (drop 4) ((equal-same (codes "/srv" ++ path) (codes "/srv/..")).0 same) in
      let lacks = subst LacksPairs eq h in absurd (lacks 1 refl refl)
  | inr apart ↦ (rw apart, refl, refl)
]

disk_result-SameAt_example :
    disk_result (with_parent directory) (request_for (codes "/..")) info (codes "/srv") true 1000
    ≡ disk_result (with_parent other) (request_for (codes "/..")) info (codes "/srv") true 1000
disk_result-SameAt_example =
    disk_result-SameAt (with_parent directory) (with_parent other) (request_for (codes "/..")) info
      (codes "/srv") true 1000 with_parent-SameAt

-- A file that nobody may read.
abbrev locked : FileSystem
locked = record { status = λ path. regular 10; contents = λ path. none; entries = λ path. [] }

disk_result-messages_example :
    ((disk_result locked (request_for (codes "/a")) info (codes "/srv") false 1000).0.messages ≡ [])
    ↔ IsUnreadable 1000
        (locked.status (codes "/srv" ++ blank_dots (codes "/a")))
        (locked.contents (codes "/srv" ++ blank_dots (codes "/a")))
disk_result-messages_example =
    disk_result-messages locked (request_for (codes "/a")) info (codes "/srv") false 1000
