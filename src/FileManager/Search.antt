-- ===== src/FileManager/Search.antt =====
-- What a search finds.
use cxx.Common.{
  ◌≡◌, ◌∙◌, refl, sym, ap, Bool, true, false, List, [], ◌∷◌, ◌++◌, append_assoc, append-nil,
  if◌then◌else◌,
}
use cxx.FileManager.{Text, Listing, nothing, file, folder, find, is_some, search_files_recursive}

-- All files below a directory, those of a folder where the folder stands.
abbrev pub all_files : Listing → List Text
all_files nothing = []
all_files (file name rest) = name ∷ all_files rest
all_files (folder name inside rest) = all_files inside ++ all_files rest

-- Those of the names in which the keyword occurs
abbrev pub matching : Text → List Text → List Text
matching keyword [] = []
matching keyword (name ∷ names) =
    if is_some (find keyword name) then name ∷ matching keyword names else matching keyword names

if-append :
    (b : Bool) (x : Text) (m r : List Text)
    → (if b then x ∷ (m ++ r) else m ++ r) ≡ (if b then x ∷ m else m) ++ r
if-append true x m r = refl
if-append false x m r = refl

append-if :
    (b : Bool) (x : Text) (m r : List Text)
    → (if b then m ++ x ∷ [] else m) ++ r ≡ m ++ (if b then x ∷ r else r)
append-if true x m r = append_assoc m (x ∷ []) r
append-if false x m r = refl

matching-append :
    (keyword : Text) (xs ys : List Text)
    → matching keyword (xs ++ ys) ≡ matching keyword xs ++ matching keyword ys
matching-append keyword [] ys = refl
matching-append keyword (x ∷ xs) ys =
    ap (λ t. if is_some (find keyword x) then x ∷ t else t) (matching-append keyword xs ys)
    ∙ if-append (is_some (find keyword x)) x (matching keyword xs) (matching keyword ys)

-- A search adds to what was found before the files below the directory, at any depth, whose names
-- have the keyword in them, in the order of the listing, and nothing else.
pub search_files_recursive_lem :
    (d : Listing) (keyword : Text) (found : List Text)
    → search_files_recursive d keyword found ≡ found ++ matching keyword (all_files d)
unfolding search_files_recursive
search_files_recursive_lem nothing keyword found = sym (append-nil found)
search_files_recursive_lem (file name rest) keyword found =
    search_files_recursive_lem rest keyword
      (if is_some (find keyword name) then found ++ name ∷ [] else found)
    ∙ append-if (is_some (find keyword name)) name found (matching keyword (all_files rest))
search_files_recursive_lem (folder name inside rest) keyword found =
    search_files_recursive_lem rest keyword (search_files_recursive inside keyword found)
    ∙ ap (λ t. t ++ matching keyword (all_files rest))
        (search_files_recursive_lem inside keyword found)
    ∙ append_assoc found (matching keyword (all_files inside)) (matching keyword (all_files rest))
    ∙ ap (λ t. found ++ t) (sym (matching-append keyword (all_files inside) (all_files rest)))
