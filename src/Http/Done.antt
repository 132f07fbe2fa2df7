-- ===== src/Http/Done.antt =====
-- Results of pure code: a value or an exception, never an exhausted loop.
use saltext_vmware.Base.{String, refl, ◌≢◌, Bool, true, false, arith, if◌then◌else◌}
use saltext_vmware.Json.{Json}
use saltext_vmware.Http.{Exc, Result, ok, err, out_of_fuel, get, item, ◌>>=◌}

pub record IsDone {A : Type 0} (r : Result A) : Type 0 where
  pub done : r ≢ out_of_fuel

module _ {A : Type 0} where
  pub IsDone-ok : (a : A) → IsDone (ok a)
  IsDone-ok a = record { done = λ p. cc }

  pub IsDone-err : (e : Exc) → IsDone {A = A} (err e)
  IsDone-err e = record { done = λ p. cc }

  pub IsDone-if : (b : Bool) (r s : Result A) → IsDone r → IsDone s → IsDone (if b then r else s)
  IsDone-if true r s hr hs = hr
  IsDone-if false r s hr hs = hs

pub IsDone-bind :
    {A B : Type 0} (r : Result A) (f : A → Result B)
    → IsDone r
    → ((a : A) → IsDone (f a))
    → IsDone (r >>= f)
IsDone-bind (ok a) f hr hf = hf a
IsDone-bind (err e) f hr hf = record { done = λ p. cc }
IsDone-bind out_of_fuel f hr hf = absurd (hr.done refl)

pub IsDone-get : (v : Json) (key : String) (default : Json) → IsDone (get v key default)
IsDone-get v key default = record { done = λ p. ground arith }

pub IsDone-item : (v : Json) (key : String) → IsDone (item v key)
IsDone-item v key = record { done = λ p. ground arith }

pub ruleset done_rules = (IsDone-ok, IsDone-err, IsDone-if, IsDone-bind, IsDone-get, IsDone-item)
