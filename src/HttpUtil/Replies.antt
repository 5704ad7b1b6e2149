-- ===== src/HttpUtil/Replies.antt =====
-- What `disk_result` looks at, and when it has no answer.
use prime_server.Prelude.{
  ℕ, Bool, true, false, Option, none, some, [], ◌++◌, leb, Bytes, ◌≡◌, ◌≢◌, ◌↔◌, refl, Bool-cases,
  inl, inr,
}
use prime_server.Http.Request.{HttpRequest}
use prime_server.Http.Message.{HttpRequestInfo, HttpResponse}
use prime_server.HttpUtil.{
  FileStatus, regular, directory, other, FileSystem, blank_dots, reply, file_reply, status_reply,
  disk_result, not_found, mime_header, ok, default_mime, html_mime, listing, sort_entries,
}
use prime_server.HttpUtil.Paths.{LacksPairs, blank_dots-LacksPairs}

-- Two file systems that cannot be told apart at a path.
abbrev pub SameAt : FileSystem → FileSystem → Bytes → Type 0
SameAt files files' path =
    (files.status path ≡ files'.status path)
    × (files.contents path ≡ files'.contents path)
    × (files.entries path ≡ files'.entries path)

status_reply-SameAt :
    (files files' : FileSystem) (path canonical : Bytes) (info : HttpRequestInfo)
    (allow_listing : Bool) (size_limit : ℕ) (status : FileStatus)
    → SameAt files files' canonical
    → status_reply files path canonical info allow_listing size_limit status
      ≡ status_reply files' path canonical info allow_listing size_limit status
unfolding status_reply
status_reply-SameAt files files' path canonical info allow_listing size_limit (regular size) h =
    rw h.1
status_reply-SameAt files files' path canonical info allow_listing size_limit directory h = rw h.2
status_reply-SameAt files files' path canonical info allow_listing size_limit other h = refl

-- Whatever is asked for, the answer depends on the file system only at paths that are the root and
-- behind it a path without two dots side by side: changes anywhere else do not show.
pub disk_result-SameAt :
    (files files' : FileSystem) (request : HttpRequest) (info : HttpRequestInfo) (root : Bytes)
    (allow_listing : Bool) (size_limit : ℕ)
    → ((path : Bytes) → LacksPairs path → SameAt files files' (root ++ path))
    → disk_result files request info root allow_listing size_limit
      ≡ disk_result files' request info root allow_listing size_limit
unfolding disk_result
disk_result-SameAt files files' request info root allow_listing size_limit h =
    let same = h (blank_dots request.path) (blank_dots-LacksPairs request.path) in
    rw same.0 (
      status_reply-SameAt files files' (blank_dots request.path) (root ++ blank_dots request.path)
        info allow_listing size_limit (files'.status (root ++ blank_dots request.path)) same)

-- A regular file, not too large, that cannot be opened.
abbrev pub IsUnreadable : ℕ → FileStatus → Option Bytes → Type 0
IsUnreadable size_limit (regular size) contents = (leb size size_limit ≡ true) × (contents ≡ none)
IsUnreadable size_limit directory contents = ⊥
IsUnreadable size_limit other contents = ⊥

reply_answers :
    (response : HttpResponse) (info : HttpRequestInfo) → (reply response info).0.messages ≢ []
unfolding reply
reply_answers response info e = cc e

file_reply-messages :
    (path : Bytes) (info : HttpRequestInfo) (contents : Option Bytes)
    → ((file_reply path info contents).0.messages ≡ []) ↔ (contents ≡ none)
unfolding file_reply
file_reply-messages path info none = (λ e. refl, λ e. refl)
file_reply-messages path info (some buffer) = (
  λ e. absurd (reply_answers (ok buffer (mime_header path default_mime)) info e),
  λ e. absurd (cc e),
)

status_reply-messages :
    (files : FileSystem) (path canonical : Bytes) (info : HttpRequestInfo) (allow_listing : Bool)
    (size_limit : ℕ) (status : FileStatus)
    → ((status_reply files path canonical info allow_listing size_limit status).0.messages ≡ [])
      ↔ IsUnreadable size_limit status (files.contents canonical)
unfolding status_reply
status_reply-messages files path canonical info allow_listing size_limit (regular size) =
    elim (Bool-cases (leb size size_limit)) [
      | inl fits ↦ rw fits (
        λ e. (refl, (file_reply-messages path info (files.contents canonical)).0 e),
        λ h. (file_reply-messages path info (files.contents canonical)).1 h.1,
      )
      | inr large ↦ rw large (λ e. absurd (reply_answers not_found info e), λ h. absurd (cc h.0))
    ]
status_reply-messages files path canonical info true size_limit directory = (
  λ e.
      absurd
        (reply_answers (ok (listing (sort_entries [] (files.entries canonical))) html_mime) info e),
  λ h. absurd h,
)
status_reply-messages files path canonical info false size_limit directory =
    (λ e. absurd (reply_answers not_found info e), λ h. absurd h)
status_reply-messages files path canonical info allow_listing size_limit other =
    (λ e. absurd (reply_answers not_found info e), λ h. absurd h)

-- The result has no message, so that the worker sends none and the client waits, if and only if the
-- path names a regular file within the size limit that cannot be opened.
pub disk_result-messages :
    (files : FileSystem) (request : HttpRequest) (info : HttpRequestInfo) (root : Bytes)
    (allow_listing : Bool) (size_limit : ℕ)
    → ((disk_result files request info root allow_listing size_limit).0.messages ≡ [])
      ↔ IsUnreadable size_limit
          (files.status (root ++ blank_dots request.path))
          (files.contents (root ++ blank_dots request.path))
unfolding disk_result
disk_result-messages files request info root allow_listing size_limit =
    status_reply-messages files (blank_dots request.path) (root ++ blank_dots request.path) info
      allow_listing size_limit (files.status (root ++ blank_dots request.path))
