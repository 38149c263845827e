-- ===== src/FileManager.antt =====
-- FileManager of include/file_transfer/FileManager.hpp: what is answered to a request. A path or a
-- name is the list of its bytes. The file system is a parameter: whether a path can be opened,
-- whether it is a directory, whether it can be written, and the entries of a directory in the order in
-- which they are listed. That the coroutines of handle_connection run with what its locals held is
-- taken for granted, although it lets them refer to its locals; reading a request and sending a response are left to the
-- library. `root` is the member of that name.
pub mod Search
pub mod Paths
pub mod Escape
mod Tests
use Prim.Native.String.{String}
use cxx.Common.{
  ℕ, zero, suc, ◌+◌, Bool, true, false, ◌&&◌, Option, none, some, List, [], ◌∷◌, ◌++◌, drop, take,
  ◌==◌, if◌then◌else◌,
}

abbrev pub Text : Type 0
Text = List ℕ

-- What is below a directory, in the order of its listing.
pub data Listing : Type 0 where
  nothing : Listing
  file : Text → Listing → Listing
  folder : Text → Listing → Listing → Listing

-- std::string::starts_with, and find: the first place of a word in a text.
abbrev pub starts_with : Text → Text → Bool
starts_with s [] = true
starts_with [] (w ∷ word) = false
starts_with (c ∷ s) (w ∷ word) = c == w && starts_with s word

abbrev pub find : Text → Text → Option ℕ
find word [] = elim word [ [] ↦ some 0 | w ∷ ws ↦ none ]
find word (c ∷ s) =
    let later = find word s in
    if starts_with (c ∷ s) word then some 0 else elim later [ none ↦ none | some n ↦ some (suc n) ]

abbrev pub is_some : Option ℕ → Bool
is_some none = false
is_some (some n) = true

-- search_files_recursive; `filenames` has what was found before.
unfoldable pub search_files_recursive : Listing → Text → List Text → List Text
search_files_recursive nothing keyword filenames = filenames
search_files_recursive (file name rest) keyword filenames =
    search_files_recursive rest keyword
      (if is_some (find keyword name) then filenames ++ name ∷ [] else filenames)
search_files_recursive (folder name inside rest) keyword filenames =
    search_files_recursive rest keyword (search_files_recursive inside keyword filenames)

-- The names of the entries of the directory itself
unfoldable pub names : Listing → List Text
names nothing = []
names (file name rest) = name ∷ names rest
names (folder name inside rest) = name ∷ names rest

-- A part of a body: what the code writes, or a text that it was given.
pub data Piece : Type 0 where
  lit : String → Piece
  given : Text → Piece

pub data Body : Type 0 where
  text : List Piece → Body
  contents : Text → Body  -- of the file with this path

-- `version` and prepare_payload are left to the library.
pub record Response : Type 0 where
  pub status : ℕ
  pub content_type : String
  pub keep_alive : Bool
  pub body : Body

abbrev pub slash_search : Text
slash_search = b'/' ∷ b's' ∷ b'e' ∷ b'a' ∷ b'r' ∷ b'c' ∷ b'h' ∷ []

abbrev pub search_is : Text
search_is = b's' ∷ b'e' ∷ b'a' ∷ b'r' ∷ b'c' ∷ b'h' ∷ b'=' ∷ []

-- The keyword of a search: what is behind the first `?`, or all when there is none, and of that
-- what is behind the first "search=", if there is one.
abbrev pub after_mark : Option ℕ → ℕ → Text → Text
after_mark none n s = s
after_mark (some i) n s = drop (i + n) s

unfoldable pub keyword_of : Text → Text
keyword_of path =
    let query = after_mark (find (b'?' ∷ []) path) 1 path in
    after_mark (find search_is query) 7 query

abbrev pub respond : ℕ → String → Body → Response
respond status content_type body = record {
  status = status;
  content_type = content_type;
  keep_alive = false;
  body = body;
}

-- handle_upload: the file that it writes, if it can open it, and its answer. `upload` is the
-- directory for uploads, "/home/sw/Documents/cxx/res/upload/".
unfoldable pub handle_upload :
    (upload : Text) (can_write : Text → Bool) → Text → Text → Option (Text × Text) × Response
handle_upload upload can_write filename body = (
  (if can_write (upload ++ filename) then some (upload ++ filename, body) else none),
  respond 200 "text/plain"
      (text (lit "File '" ∷ given filename ∷ lit "' uploaded successfully" ∷ [])),
)

module _ (root : Text) (opens : Text → Bool) (is_directory : Text → Bool)
    (entries : Text → Listing) where
  -- One line of the page
  abbrev pub item : Text → Text → Text → List Piece
  item new_path path name =
      if is_directory (new_path ++ b'/' ∷ name)
      then lit "<li><button onclick=\"location.href='"
        ∷ given path
        ∷ given name
        ∷ lit "'\">"
        ∷ given name
        ∷ lit "</button></li></br>\n"
        ∷ []
      else lit "<li>"
        ∷ given name
        ∷ lit " - <a href=\""
        ∷ given path
        ∷ given name
        ∷ lit "\" download>Download</a></li></br>\n"
        ∷ []

  abbrev pub items : Text → Text → List Text → List Piece
  items new_path path [] = []
  items new_path path (name ∷ names) = item new_path path name ++ items new_path path names

  abbrev pub page : Text → Text → List Text → List Piece
  page new_path path filenames =
      lit
          "<!DOCTYPE html>\n<html>\n<head><title>Files in directory</title></head>\n<body>\n<h1>Files in directory:</h1>\n<form action=\"/search\" method=\"get\">\n<input type=\"text\" name=\"search\" placeholder=\"Search files...\">\n<input type=\"submit\" value=\"Search\">\n</form>\n<ul>\n"
        ∷ items new_path path filenames
      ++ lit
          "</ul>\n<form action=\"/upload\" method=\"post\" enctype=\"multipart/form-data\">\n<input type=\"file\" name=\"fileToUpload\" id=\"fileToUpload\">\n<input type=\"submit\" value=\"Upload File\" name=\"submit\">\n</form>\n</body>\n</html>"
        ∷ []

  -- handle_request
  unfoldable pub handle_request : Text → Bool → Response
  unfolding search_files_recursive names keyword_of
  handle_request path is_search =
      let new_path = root ++ (if is_search then take 7 path else path) in
      if opens new_path
      then (if is_directory new_path
          then respond 200 "text/html" (
              text (
                page new_path path (
                  if is_search
                  then search_files_recursive (entries root) (keyword_of path) []
                  else names (entries new_path))))
          else respond 200 "text/plain" (contents new_path))
      else respond 404 "text/plain" (text (lit "404 Not Found" ∷ []))

-- The method of a request, as handle_connection tells them apart.
pub data Verb : Type 0 where
  get : Verb
  post : Verb
  other_verb : Verb

pub record Request : Type 0 where
  pub method : Verb
  pub target : Text
  pub body : Text
  pub keep_alive : Bool

module _ (root upload : Text) (opens is_directory can_write : Text → Bool)
    (entries : Text → Listing) where
  -- handle_connection, with what the coroutine that it spawns does: the file that is written, and
  -- the response.
  unfoldable pub handle_connection : Request → Option (Text × Text) × Response
  unfolding handle_request handle_upload
  handle_connection r = elim r.method [
    | get ↦ (
      none,
      handle_request root opens is_directory entries r.target (starts_with r.target slash_search),
    )
    | post ↦ handle_upload upload can_write r.target r.body
    | other_verb ↦ (
      none,
      record {
        status = 405;
        content_type = "text/plain";
        keep_alive = r.keep_alive;
        body = text (lit "405 Method Not Allowed" ∷ []);
      },
    )
  ]
