-- ===== src/Paths.antt =====
-- src/server.rs: the helpers that set, remove and merge inside a JSON value by a path.
pub mod Laws
use sodp.Base.{
  ℕ, String, Bool, true, false, Option, none, some, List, [], ◌∷◌, str_eq, if◌then◌else◌, not,
}
use sodp.Base.Text.{split, trim_start_matches, starts_with, ◌⧺◌}
use sodp.Json.{
  Value, Fields, end, field, null, bool, num, str, arr, obj, get, insert, remove, unwrap_or_null,
}

abbrev pub slash : ℕ
slash = b'/'

-- `path.trim_start_matches('/').split('/')`
abbrev pub path_parts : String → List String
path_parts path = split slash (trim_start_matches slash path)

-- A non-object on the way is replaced by an empty object.
abbrev pub as_map : Value → Fields
as_map (obj m) = m
as_map _ = end

unfoldable pub set_in_recursive : Value → List String → Value → Value
set_in_recursive node [] val = val
set_in_recursive node (key ∷ []) val = obj (insert (as_map node) key val)
set_in_recursive node (key ∷ next ∷ rest) val =
    let map = as_map node in
    let child = unwrap_or_null (get map key) in
    obj (insert (remove map key) key (set_in_recursive child (next ∷ rest) val))

pub data SetResult : Type 0 where
  ok : Value → SetResult
  err : String → SetResult

unfoldable pub json_set_in : Value → String → Value → SetResult
json_set_in root path new_val =
    if str_eq path "/"
    then ok new_val
    else if not (starts_with slash path)
    then err ("state.set_in: path must start with '/', got '" ⧺ (path ⧺ "'"))
    else ok (set_in_recursive root (path_parts path) new_val)

-- The slice that `split` gives is never empty; on an empty one `parts[0]` would panic.
unfoldable pub remove_in_recursive : Value → List String → Value
remove_in_recursive (obj map) [] = obj map
remove_in_recursive (obj map) (key ∷ []) = obj (remove map key)
remove_in_recursive (obj map) (key ∷ next ∷ rest) = elim (get map key) [
  | none ↦ obj map
  | some child ↦ obj (insert (remove map key) key (remove_in_recursive child (next ∷ rest)))
]
remove_in_recursive other parts = other

unfoldable pub json_remove_in : Value → String → Value
json_remove_in root path =
    if str_eq path ""
    then null
    else if str_eq path "/"
    then null
    else if not (starts_with slash path)
    then root
    else remove_in_recursive root (path_parts path)

-- `json_merge` recurs on the patch; `merge_fields` is its loop over the fields of the patch.
unfoldable mutual
  pub json_merge : Value → Value → Value
  json_merge base null = null
  json_merge base (bool b) = bool b
  json_merge base (num n) = num n
  json_merge base (str s) = str s
  json_merge base (arr xs) = arr xs
  json_merge (obj base_map) (obj patch_map) = obj (merge_fields base_map patch_map)
  json_merge _ (obj patch_map) = obj patch_map

  pub merge_fields : Fields → Fields → Fields
  merge_fields base_map end = base_map
  merge_fields base_map (field k v rest) =
      let existing = unwrap_or_null (get base_map k) in
      merge_fields (insert (remove base_map k) k (json_merge existing v)) rest
