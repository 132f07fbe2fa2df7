-- ===== src/Json.antt =====
-- The values that the program handles: the JSON bodies of the REST interfaces and Salt's pillar,
-- as Python's `None`, `bool`, `int`, `str`, `list` and `dict`. Numbers are the non-negative integers.
-- A dict lists its entries in insertion order.
pub mod Laws
pub mod Equal
use saltext_vmware.Base.{ℕ, String, ◌==◌, Bool, true, false, not, Option, none, some, eqb}
use saltext_vmware.Base.{List, [], ◌∷◌, if◌then◌else◌}

mutual
  pub data Json : Type 0 where
    null : Json
    bool : Bool → Json
    num : ℕ → Json
    str : String → Json
    arr : Items → Json
    obj : Fields → Json

  pub data Items : Type 0 where
    nil : Items
    cons : Json → Items → Items

  pub data Fields : Type 0 where
    end : Fields
    field : String → Json → Fields → Fields

-- `{}`
abbrev pub empty : Json
empty = obj end

abbrev pub to_list : Items → List Json
to_list nil = []
to_list (cons v vs) = v ∷ to_list vs

-- `list(d.values())`
abbrev pub values : Fields → List Json
values end = []
values (field k v fs) = v ∷ values fs

abbrev pub lookup : Fields → String → Option Json
lookup end k = none
lookup (field j v fs) k = if j == k then some v else lookup fs k

-- `d[k] = v`: a key that is there keeps its place.
abbrev pub insert : Fields → String → Json → Fields
insert end k v = field k v end
insert (field j w fs) k v = if j == k then field j v fs else field j w (insert fs k v)

-- `d.pop(k, None)`
abbrev pub remove : Fields → String → Fields
remove end k = end
remove (field j w fs) k = let rest = remove fs k in if j == k then rest else field j w rest

-- `d.get(k, default)` of a dict
abbrev pub get_or : Fields → String → Json → Json
get_or fs k default = elim (lookup fs k) [ none ↦ default | some v ↦ v ]

-- `bool(v)`
abbrev pub truthy : Json → Bool
truthy null = false
truthy (bool b) = b
truthy (num n) = not (eqb n 0)
truthy (str s) = not (s == "")
truthy (arr nil) = false
truthy (arr (cons v vs)) = true
truthy (obj end) = false
truthy (obj (field k v fs)) = true

-- `v or w`
infixr 30 ◌or◌
abbrev pub ◌or◌ : Json → Json → Json
v or w = if truthy v then v else w

-- `v is None`
abbrev pub is_none : Json → Bool
is_none null = true
is_none _ = false

-- `v == "text"`
abbrev pub is_text : Json → String → Bool
is_text (str t) s = t == s
is_text _ s = false

-- `isinstance(v, dict)`
abbrev pub is_dict : Json → Bool
is_dict (obj fs) = true
is_dict _ = false
