-- ===== src/FileManager/Paths.antt =====
-- How a path with `.` and `..` is resolved, where no directory on the way is a link. Independent of
-- the file server's code.
use cxx.Common.{
  ℕ, zero, suc, ◌≡◌, ◌∙◌, refl, sym, ap, false, ◌||◌, List, [], ◌∷◌, ◌++◌, append_assoc, drop,
  length, replicate, ◌==◌, if◌then◌else◌, list_beq, nat_eq,
}
use cxx.FileManager.{Text}

abbrev pub dot : Text
dot = b'.' ∷ []

abbrev pub dots : Text
dots = b'.' ∷ b'.' ∷ []

abbrev push_first : ℕ → List Text → List Text
push_first c [] = (c ∷ []) ∷ []
push_first c (w ∷ ws) = (c ∷ w) ∷ ws

-- The parts between the slashes
unfoldable pub split : Text → List Text
split [] = [] ∷ []
split (c ∷ s) = let rest = split s in if c == b'/' then [] ∷ rest else push_first c rest

-- One part: the directories on the way are on a stack, the last one first.
abbrev pub enter : List Text → Text → List Text
enter way w =
    if list_beq w [] || list_beq w dot then way else if list_beq w dots then drop 1 way else w ∷ way

unfoldable pub walk : List Text → List Text → List Text
walk way [] = way
walk way (w ∷ ws) = walk (enter way w) ws

abbrev pub resolve : Text → List Text
resolve s = walk [] (split s)

-- The absolute path of these names
abbrev pub path_of : List Text → Text
path_of [] = []
path_of (n ∷ ns) = b'/' ∷ (n ++ path_of ns)

abbrev NoSlash : Text → Type 0
NoSlash [] = Unit
NoSlash (c ∷ w) = ((c == b'/') ≡ false) × NoSlash w

-- The name of a file or of a directory, `.` and `..` not among them.
pub record IsName (w : Text) : Type 0 where
  pub no_slash : NoSlash w
  pub not_special : (list_beq w [] || list_beq w dot) ≡ false
  pub not_up : list_beq w dots ≡ false

abbrev pub AllNames : List Text → Type 0
AllNames [] = Unit
AllNames (w ∷ ws) = IsName w × AllNames ws

abbrev AllNoSlash : List Text → Type 0
AllNoSlash [] = Unit
AllNoSlash (w ∷ ws) = NoSlash w × AllNoSlash ws

pub path_of-append : (xs ys : List Text) → path_of (xs ++ ys) ≡ path_of xs ++ path_of ys
path_of-append [] ys = refl
path_of-append (x ∷ xs) ys =
    ap (λ t. b'/' ∷ (x ++ t)) (path_of-append xs ys)
    ∙ ap (λ t. b'/' ∷ t) (sym (append_assoc x (path_of xs) (path_of ys)))

split-name : (n s : Text) (ws : List Text) → NoSlash n → split s ≡ [] ∷ ws → split (n ++ s) ≡ n ∷ ws
unfolding split
split-name [] s ws v e = e
split-name (c ∷ n) s ws (h, v) e = rw (h, split-name n s ws v e) refl

split-path_of : (ns : List Text) → AllNoSlash ns → split (path_of ns) ≡ [] ∷ ns
unfolding split
split-path_of [] v = refl
split-path_of (n ∷ ns) (h, v) =
    ap (λ t. [] ∷ t) (split-name n (path_of ns) ns h (split-path_of ns v))

walk-append : (way xs ys : List Text) → walk way (xs ++ ys) ≡ walk (walk way xs) ys
unfolding walk
walk-append way [] ys = refl
walk-append way (x ∷ xs) ys = walk-append (enter way x) xs ys

drop_nil : (n : ℕ) → drop {A = Text} n [] ≡ []
drop_nil zero = refl
drop_nil (suc n) = refl

walk_up : (n : ℕ) (way : List Text) → walk way (replicate n dots) ≡ drop n way
unfolding walk
walk_up zero way = refl
walk_up (suc n) [] = walk_up n [] ∙ drop_nil n
walk_up (suc n) (w ∷ way) = walk_up n way

drop_next : (n : ℕ) (xs way : List Text) (w : Text) → drop n xs ≡ w ∷ way → drop (suc n) xs ≡ way
drop_next zero xs way w e = ap (drop 1) e
drop_next (suc n) [] way w e = absurd (cc)
drop_next (suc n) (x ∷ xs) way w e = drop_next n xs way w e

walk_names : (ws way : List Text) → AllNames ws → drop (length ws) (walk way ws) ≡ way
unfolding walk
walk_names [] way v = refl
walk_names (w ∷ ws) way (h, v) =
    let entered : enter way w ≡ w ∷ way = rw (h.not_special, h.not_up) refl in
    drop_next (length ws) (walk (enter way w) ws) way w (walk_names ws (enter way w) v ∙ entered)

names-AllNoSlash : (ws : List Text) → AllNames ws → AllNoSlash ws
names-AllNoSlash [] v = tt
names-AllNoSlash (w ∷ ws) (h, v) = (h.no_slash, names-AllNoSlash ws v)

append-AllNoSlash : (xs ys : List Text) → AllNoSlash xs → AllNoSlash ys → AllNoSlash (xs ++ ys)
append-AllNoSlash [] ys v w = w
append-AllNoSlash (x ∷ xs) ys (h, v) w = (h, append-AllNoSlash xs ys v w)

dots-AllNoSlash : (n : ℕ) → AllNoSlash (replicate n dots)
dots-AllNoSlash zero = tt
dots-AllNoSlash (suc n) = ((refl, (refl, tt)), dots-AllNoSlash n)

resolve-path_of : (ns : List Text) → AllNoSlash ns → resolve (path_of ns) ≡ walk [] ns
unfolding walk
resolve-path_of ns v = ap (walk []) (split-path_of ns v)

climb :
    (directory names : List Text)
    → AllNames directory
    → walk [] (directory ++ replicate (length directory) dots ++ names) ≡ walk [] names
climb directory names v =
    let ups = replicate (length directory) dots in
    walk-append [] (directory ++ ups) names
    ∙ ap (λ t. walk t names)
        (walk-append [] directory ups
          ∙ walk_up (length directory) (walk [] directory)
          ∙ walk_names directory [] v)

-- Below a directory, as many `..` as it has names lead to the root of the file system.
pub resolve_up :
    (directory names : List Text)
    → AllNames directory
    → AllNames names
    → resolve (path_of directory ++ path_of (replicate (length directory) dots ++ names))
      ≡ resolve (path_of names)
resolve_up directory names v w =
    let ups = replicate (length directory) dots in
    let plain = names-AllNoSlash names w in
    ap resolve (sym (path_of-append directory (ups ++ names)))
    ∙ ap (λ t. resolve (path_of t)) (sym (append_assoc directory ups names))
    ∙ resolve-path_of (directory ++ ups ++ names) (
        append-AllNoSlash (directory ++ ups) names
          (append-AllNoSlash directory ups (names-AllNoSlash directory v)
            (dots-AllNoSlash (length directory)))
          plain)
    ∙ climb directory names v
    ∙ sym (resolve-path_of names plain)

-- The same behind a second slash
pub resolve_up_twice :
    (directory names : List Text)
    → AllNames directory
    → AllNames names
    → resolve
        ((path_of directory ++ b'/' ∷ []) ++ path_of (replicate (length directory) dots ++ names))
      ≡ resolve (path_of names)
unfolding walk
resolve_up_twice directory names v w =
    let ups = replicate (length directory) dots in
    let plain = names-AllNoSlash names w in
    let below : AllNoSlash (ups ++ names) =
      append-AllNoSlash ups names (dots-AllNoSlash (length directory)) plain in
    ap resolve (
      append_assoc (path_of directory) (b'/' ∷ []) (path_of (ups ++ names))
      ∙ sym (path_of-append directory ([] ∷ ups ++ names)))
    ∙ resolve-path_of (directory ++ ([] ∷ ups ++ names))
        (append-AllNoSlash directory ([] ∷ ups ++ names) (names-AllNoSlash directory v) (tt, below))
    ∙ walk-append [] directory ([] ∷ ups ++ names)
    ∙ sym (walk-append [] directory (ups ++ names))
    ∙ ap (walk []) (sym (append_assoc directory ups names))
    ∙ climb directory names v
    ∙ sym (resolve-path_of names plain)
