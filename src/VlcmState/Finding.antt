-- ===== src/VlcmState/Finding.antt =====
-- Which depot `depot_configured` takes for the one that it is to configure.
use saltext_vmware.Base.{◌≡◌, refl, sym, Bool, true, false, Option, some, List, [], ◌∷◌}
use saltext_vmware.Base.{if◌then◌else◌}
use mathlib.Core.Logic.Or
use mathlib.Core.List.{Mem, mem-cons, mem-cons_self}
use saltext_vmware.Json.{Json, null}
use saltext_vmware.Json.Equal.{equal}
use saltext_vmware.Http.{Result, ok, err, out_of_fuel, get, ◌>>=◌}
use saltext_vmware.VlcmState.Values.{find_depot}

-- The depot is one of the list, and its location equals the one asked for.
abbrev pub IsListed : Json → List Json → Json → Type 0
IsListed location depots d =
    Mem d depots
    × (found : Json) × (get d "location" null ≡ ok found)
    × (equal found location ≡ true)

stays :
    (location d e : Json) (ds : List Json) → IsListed location ds d → IsListed location (e ∷ ds) d
stays location d e ds (m, found, h, k) = (mem-cons.1 (Or.inr m), found, h, k)

-- One step of the search, the rest of it given
stepped :
    (location e d : Json) (ds : List Json) (rest : Result (Option Json)) (r : Result Json)
    → (rest ≡ ok (some d) → IsListed location ds d)
    → get e "location" null ≡ r
    → (r >>= λ found. if equal found location then ok (some e) else rest) ≡ ok (some d)
    → IsListed location (e ∷ ds) d
stepped location e d ds rest out_of_fuel k q h = cc
stepped location e d ds rest (err x) k q h = cc
stepped location e d ds rest (ok found) k q h = decided (equal found location) refl h
  where
    decided :
        (b : Bool)
        → equal found location ≡ b
        → (if b then ok (some e) else rest) ≡ ok (some d)
        → IsListed location (e ∷ ds) d
    decided true p h' = let same : e ≡ d = cc in rw (sym same) (mem-cons_self, found, q, p)
    decided false p h' = stays location d e ds (k h')

-- The depot that is found is one of the list, and its location equals the one that was asked for.
pub find_depot-some :
    (location d : Json) (ds : List Json)
    → find_depot location ds ≡ ok (some d)
    → IsListed location ds d
unfolding find_depot
find_depot-some location d [] h = cc
find_depot-some location d (e ∷ ds) h =
    stepped location e d ds (find_depot location ds) (get e "location" null)
      (find_depot-some location d ds) refl h
