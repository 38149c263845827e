-- ===== src/FileManager/Tests.antt =====
-- A small directory, and a file outside of it.
use cxx.Common.{◌≡◌, refl, Bool, true, false, none, some, [], ◌∷◌, ◌++◌}
use cxx.FileManager.{
  Text, Listing, nothing, file, folder, search_files_recursive, contents, respond, get, post,
}
use cxx.FileManager.Paths.{IsName, path_of, resolve}
use cxx.FileManager.Escape.{climbing, answered, handle_connection-resolve}
use cxx.FileManager.Search.{all_files, matching, search_files_recursive_lem}

abbrev listing : Listing
listing = file (b'a' ∷ []) (folder (b'd' ∷ []) (file (b'b' ∷ b'a' ∷ []) nothing) nothing)

search_files_recursive_lem_example :
    search_files_recursive listing (b'a' ∷ []) [] ≡ [] ++ matching (b'a' ∷ []) (all_files listing)
search_files_recursive_lem_example = search_files_recursive_lem listing (b'a' ∷ []) []

abbrev always : Text → Bool
always path = true

abbrev never : Text → Bool
never path = false

abbrev res : Text
res = b'r' ∷ b'e' ∷ b's' ∷ []

abbrev etc : Text
etc = b'e' ∷ b't' ∷ b'c' ∷ []

res-IsName : IsName res
res-IsName = record { no_slash = (refl, (refl, (refl, tt))); not_special = refl; not_up = refl }

etc-IsName : IsName etc
etc-IsName = record { no_slash = (refl, (refl, (refl, tt))); not_special = refl; not_up = refl }

handle_connection-resolve_example :
    (given_path written_path : Text) × (answered res []
        (res ∷ [])
        always
        never
        always
        (λ path. listing)
        get
        (climbing (res ∷ []) (etc ∷ []))
        []
      ≡ (none, respond 200 "text/plain" (contents given_path)))
    × (resolve given_path ≡ resolve (path_of (etc ∷ [])))
    × ((answered res []
          (res ∷ [])
          always
          never
          always
          (λ path. listing)
          post
          (climbing (res ∷ []) (etc ∷ []))
          []).0
        ≡ some (written_path, []))
    × (resolve written_path ≡ resolve (path_of (etc ∷ [])))
handle_connection-resolve_example =
    handle_connection-resolve res [] (res ∷ []) always never always (λ path. listing) (etc ∷ []) []
      (res-IsName, tt) (res-IsName, tt) (etc-IsName, tt) refl refl refl
