-- ===== src/Json/Laws.antt =====
-- Lookups after writes to a dict.
use text.Mathlib.TextPositions.{eq_refl}
use saltext_vmware.Base.{String, ◌==◌, ◌≡◌, refl, false, none, some, arith, eq_iff, if◌then◌else◌}
use saltext_vmware.Json.{Json, Fields, end, field, lookup, insert, remove, get_or}

pub lookup-insert :
    (fs : Fields) (k j : String) (v : Json)
    → lookup (insert fs k v) j ≡ (if k == j then some v else lookup fs j)
lookup-insert end k j v = refl
lookup-insert (field i w fs) k j v =
    ground (arith, eq_iff k j, eq_iff i k, eq_iff i j, lookup-insert fs k j v)

pub lookup-remove :
    (fs : Fields) (k j : String) → lookup (remove fs k) j ≡ (if k == j then none else lookup fs j)
lookup-remove end k j = ground arith
lookup-remove (field i w fs) k j =
    ground (arith, eq_iff k j, eq_iff i k, eq_iff i j, lookup-remove fs k j)

-- A second write to a key replaces the first.
pub insert-insert :
    (fs : Fields) (k : String) (v w : Json) → insert (insert fs k v) k w ≡ insert fs k w
insert-insert end k v w = rw eq_refl
insert-insert (field j x fs) k v w = ground (arith, eq_iff j k, insert-insert fs k v w)

-- A write to one key leaves what another key holds.
pub get_or-insert_ne :
    (fs : Fields) (k j : String) (v default : Json)
    → (k == j) ≡ false
    → get_or (insert fs k v) j default ≡ get_or fs j default
get_or-insert_ne fs k j v default h = ground (arith, lookup-insert fs k j v)
