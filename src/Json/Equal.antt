-- ===== src/Json/Equal.antt =====
-- Python's `==` of two values: dicts are equal with the same entries in any order, and `True` is
-- equal to `1`.
use saltext_vmware.Base.{ℕ, zero, suc, ◌==◌, Bool, true, false, ◌&&◌, none, some, eqb}
use saltext_vmware.Json.{Json, null, bool, num, str, arr, obj, Items, nil, cons, Fields, field, end}
use saltext_vmware.Json.{lookup}

abbrev size : Fields → ℕ
size end = zero
size (field k v fs) = suc (size fs)

-- `int(b)` of a Boolean
abbrev as_int : Bool → ℕ
as_int true = 1
as_int false = 0

unfoldable mutual
  pub equal : Json → Json → Bool
  equal null null = true
  equal (bool a) (bool b) = eqb (as_int a) (as_int b)
  equal (bool a) (num n) = eqb (as_int a) n
  equal (num m) (bool b) = eqb m (as_int b)
  equal (num m) (num n) = eqb m n
  equal (str s) (str t) = s == t
  equal (arr vs) (arr ws) = equal_items vs ws
  equal (obj fs) (obj gs) = eqb (size fs) (size gs) && equal_fields fs gs
  equal _ _ = false

  equal_items : Items → Items → Bool
  equal_items nil nil = true
  equal_items (cons v vs) (cons w ws) = equal v w && equal_items vs ws
  equal_items _ _ = false

  -- each entry of the first is one of the second
  equal_fields : Fields → Fields → Bool
  equal_fields end gs = true
  equal_fields (field k v fs) gs =
      elim (lookup gs k) [ none ↦ false | some w ↦ equal v w ] && equal_fields fs gs
