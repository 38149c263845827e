-- ===== src/FileManager/Escape.antt =====
-- Which files the server gives away and overwrites.
use cxx.Common.{
  ◌≡◌, refl, true, false, Bool, Option, none, some, List, [], ◌∷◌, ◌++◌, length, replicate,
}
use cxx.FileManager.{
  Text, Listing, contents, respond, Verb, get, post, handle_request, handle_upload,
  handle_connection, Response,
}
use cxx.FileManager.Paths.{dots, path_of, AllNames, resolve, resolve_up, resolve_up_twice}

-- A target that climbs from a directory with these names to the root of the file system.
abbrev pub climbing : List Text → List Text → Text
climbing directory names = path_of (replicate (length directory) dots ++ names)

-- The file that is written, and the response, when a request with this method and target comes in.
-- `root` has the names `r` and `directory`, and the directory for uploads the names `uploads`.
module _ (r : Text) (directory uploads : List Text) (opens is_directory can_write : Text → Bool)
    (entries : Text → Listing) where
  abbrev pub answered : Verb → Text → Text → Option (Text × Text) × Response
  answered method target body =
      handle_connection (path_of (r ∷ directory)) (path_of uploads ++ b'/' ∷ []) opens is_directory
        can_write entries
        (record { method = method; target = target; body = body; keep_alive = false })

  -- Let `names` be those of any absolute path. A GET for a target that begins with as many `/..` as
  -- `root` has directories is answered, where such a file can be opened, with the contents of a path
  -- below `root` that is resolved to that path; and a POST to a target that begins with as many as
  -- the directory for uploads has writes, where it can, its body to a path that is resolved to it.
  -- Nothing keeps a peer to the files below these directories.
  pub handle_connection-resolve :
      (names : List Text) (body : Text)
      → AllNames (r ∷ directory)
      → AllNames uploads
      → AllNames names
      → opens (path_of (r ∷ directory) ++ climbing (r ∷ directory) names) ≡ true
      → is_directory (path_of (r ∷ directory) ++ climbing (r ∷ directory) names) ≡ false
      → can_write ((path_of uploads ++ b'/' ∷ []) ++ climbing uploads names) ≡ true
      → (given_path written_path : Text) × (answered get (climbing (r ∷ directory) names) body
          ≡ (none, respond 200 "text/plain" (contents given_path)))
        × (resolve given_path ≡ resolve (path_of names))
        × ((answered post (climbing uploads names) body).0 ≡ some (written_path, body))
        × (resolve written_path ≡ resolve (path_of names))
  unfolding handle_connection handle_request handle_upload
  handle_connection-resolve names body v u w o n c = (
    path_of (r ∷ directory) ++ climbing (r ∷ directory) names,
    (path_of uploads ++ b'/' ∷ []) ++ climbing uploads names,
    rw (o, n) refl,
    resolve_up (r ∷ directory) names v w,
    rw c refl,
    resolve_up_twice uploads names u w,
  )
