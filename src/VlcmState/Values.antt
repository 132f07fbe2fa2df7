-- ===== src/VlcmState/Values.antt =====
-- What states/vcf_esxi_vlcm.py reads from depots, images and drafts.
use saltext_vmware.Base.{Option, none, some, List, [], ◌∷◌, if◌then◌else◌}
use saltext_vmware.Json.{Json, null, str, arr, obj, cons, Fields, field, end, empty, ◌or◌}
use saltext_vmware.Json.{to_list, get_or}
use saltext_vmware.Json.Equal.{equal}
use saltext_vmware.Http.{exc, type_error, Result, ok, err, get, ◌>>=◌}

abbrev keys : Fields → List Json
keys end = []
keys (field k v fs) = str k ∷ keys fs

-- What a `for` loop goes over. The characters of a text have no `get`, no more than the text has.
unfoldable pub entries : Json → Result (List Json)
entries (arr vs) = ok (to_list vs)
entries (obj fs) = ok (keys fs)
entries (str s) = ok (str s ∷ [])
entries v = err (exc type_error "object is not iterable")

-- `next((d for d in existing if d.get("location") == location), None)`
unfoldable pub find_depot : Json → List Json → Result (Option Json)
find_depot location [] = ok none
find_depot location (d ∷ ds) =
    let rest = find_depot location ds in
    do found ← get d "location" null; if equal found location then ok (some d) else rest

-- `_base_version`
unfoldable pub base_version : Json → Result Json
base_version image = do
  base_image ← get (image or empty) "base_image" null
  get (base_image or empty) "version" null

-- `_first_draft_id`, `null` for `None`
unfoldable pub first_draft_id : Json → Json
first_draft_id (obj (field k v fs)) = str k
first_draft_id (arr (cons (obj fs) vs)) =
    get_or fs "id" null or get_or fs "draft_id" null or get_or fs "key" null
first_draft_id (arr (cons v vs)) = v
first_draft_id _ = null
