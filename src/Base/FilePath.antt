-- ===== src/Base/FilePath.antt =====
-- filepath.Join, filepath.Dir, filepath.Base and filepath.Clean of a Unix system.
use Prim.Native.String.{String, ◌++◌ as ◌<>◌}
use mathlib.Core.Path.{◌≡◌, refl}
use mathlib.Core.Bool.{Bool, true, false, ◌||◌}
use mathlib.Core.List.{List, [], ◌∷◌, reverse}
use rke.Base.Tests.{◌=ₛ◌, if◌then◌else◌}
use rke.Base.Text.{split, has_prefix}

-- strings.Join.
unfoldable pub join_text : String → List String → String
join_text sep [] = ""
join_text sep (s ∷ []) = s
join_text sep (s ∷ t ∷ rest) = s <> (sep <> join_text sep (t ∷ rest))

-- `..` goes up one name, stays at the root, and is kept in front of a relative path.
abbrev up : Bool → List String → List String
up true [] = []
up false [] = ".." ∷ []
up rooted (name ∷ names) = if name =ₛ ".." then ".." ∷ name ∷ names else names

abbrev element : Bool → String → List String → List String
element rooted name names =
    if name =ₛ "" || name =ₛ "."
    then names
    else if name =ₛ ".."
    then up rooted names
    else name ∷ names

-- The names of the cleaned path, the last one first.
clean_names : Bool → List String → List String → List String
clean_names rooted names [] = names
clean_names rooted names (name ∷ rest) = clean_names rooted (element rooted name names) rest

abbrev or_dot : String → String
or_dot path = if path =ₛ "" then "." else path

unfoldable pub clean : String → String
unfolding clean_names has_prefix join_text split
clean path =
    let rooted = has_prefix path "/" in
    or_dot (
      (if rooted then "/" else "")
      <> join_text "/" (reverse (clean_names rooted [] (split b'/' path))))

abbrev not_empty : List String → List String
not_empty [] = []
not_empty (s ∷ rest) = if s =ₛ "" then not_empty rest else s ∷ not_empty rest

abbrev clean_if_any : List String → String
clean_if_any [] = ""
clean_if_any (s ∷ rest) = clean (join_text "/" (s ∷ rest))

-- filepath.Join.
unfoldable pub join_path : List String → String
unfolding clean
join_path parts = clean_if_any (not_empty parts)

abbrev last_name : List String → String
last_name [] = "/"
last_name (name ∷ names) = if name =ₛ "" then last_name names else name

-- filepath.Base: the last name that is not empty, and the root if there is none.
unfoldable pub base_name : String → String
unfolding split
base_name path = if path =ₛ "" then "." else last_name (reverse (split b'/' path))

abbrev parent_names : List String → List String
parent_names [] = []
parent_names (name ∷ names) = names

-- filepath.Dir.
unfoldable pub dir_name : String → String
unfolding clean
dir_name path = clean (
    (if has_prefix path "/" then "/" else "")
    <> join_text "/" (reverse (parent_names (reverse (split b'/' path)))))

join_path_test : join_path ("/var//lib/" ∷ "" ∷ "a/../b" ∷ "./c" ∷ []) ≡ "/var/lib/b/c"
unfolding join_path
join_path_test = refl

dir_name_test :
    (dir_name "/var/lib/x.yaml" ≡ "/var/lib")
    × (base_name "/var/lib/x.yaml" ≡ "x.yaml")
    × (dir_name "x" ≡ ".")
    × (base_name "//" ≡ "/")
unfolding dir_name base_name
dir_name_test = (refl, refl, refl, refl)
