-- ===== src/VcPatch/Matching.antt =====
-- `staged_matches`, `_extract_values` and `_match_version` of clients/vc_patch.py.
use saltext_vmware.Base.{String, ◌==◌, starts_with, Bool, true, false, not, ◌&&◌, ◌||◌}
use saltext_vmware.Base.{Option, none, some, List, [], ◌∷◌, ◌++◌, any, find_first}
use saltext_vmware.Json.{Json, null, str, arr, obj, nil, Fields, end, to_list, values}
use saltext_vmware.Json.{get_or, truthy, is_none}
use saltext_vmware.Exec.{Env, show}

-- `v in (None, "", {}, [])`
unfoldable pub is_blank : Json → Bool
is_blank null = true
is_blank (str s) = s == ""
is_blank (obj end) = true
is_blank (arr nil) = true
is_blank _ = false

-- The four fields in which a version may stand, `None` where one is missing
unfoldable pub version_fields : Fields → List Json
version_fields item =
    get_or item "version" null
    ∷ get_or item "name" null
    ∷ get_or item "id" null
    ∷ get_or item "display_version" null
    ∷ []

unfoldable pub nested_fields : Json → List Json
unfolding version_fields
nested_fields (obj fs) = version_fields fs
nested_fields _ = []

-- The candidates of `staged_matches`
unfoldable pub candidates : Json → List Json
unfolding version_fields nested_fields
candidates (obj value) =
    version_fields value
    ++ nested_fields (get_or value "update" null)
    ++ nested_fields (get_or value "info" null)
    ++ nested_fields (get_or value "summary" null)
candidates (str s) = str s ∷ []
candidates _ = []

unfoldable pub staged_value : Json → Json
staged_value (obj fs) = get_or fs "value" null
staged_value v = v

unfoldable pub dict_values : List Json → List Fields
dict_values [] = []
dict_values (obj fs ∷ vs) = fs ∷ dict_values vs
dict_values (_ ∷ vs) = dict_values vs

unfoldable pub extract_list : Json → List Json
extract_list (arr vs) = to_list vs
extract_list (obj fs) = values fs
extract_list _ = []

unfoldable pub extract_values : Json → List Json
unfolding extract_list
extract_values (obj fs) = extract_list (get_or fs "value" (arr nil))
extract_values (arr vs) = to_list vs
extract_values _ = []

module _ ⦃E : Env⦄ where
  -- equal, or one a prefix of the other
  unfoldable pub agrees : String → Json → Bool
  agrees version c =
      truthy c
      && (show c == version || starts_with (show c) version || starts_with version (show c))

  unfoldable pub value_matches : Json → Json → Bool
  unfolding is_blank candidates agrees
  value_matches value version =
      not (is_blank value)
      && (not (truthy version) || any (agrees (show version)) (candidates value))

  unfoldable pub staged_matches : Json → Json → Bool
  unfolding staged_value value_matches
  staged_matches staged_update version =
      truthy staged_update && value_matches (staged_value staged_update) version

  unfoldable pub is_exact : String → Fields → Bool
  unfolding version_fields
  is_exact requested item = any (λ c. not (is_none c) && show c == requested) (version_fields item)

  unfoldable pub is_prefix : String → Fields → Bool
  unfolding version_fields
  is_prefix requested item =
      any
        (λ c. not (is_none c) && (starts_with (show c) requested || starts_with requested (show c)))
        (version_fields item)

  unfoldable pub or_else : Option Fields → Option Fields → Option Fields
  or_else none other = other
  or_else (some item) other = some item

  unfoldable pub match_version : List Json → String → Option Fields
  unfolding dict_values is_exact is_prefix or_else
  match_version items requested =
      or_else (find_first (is_exact requested) (dict_values items))
        (find_first (is_prefix requested) (dict_values items))
