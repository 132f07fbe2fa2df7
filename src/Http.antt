-- ===== src/Http.antt =====
-- What `requests` exchanges with a machine, Python's exceptions, and the results of fallible code.
pub mod Done
use saltext_vmware.Base.{ℕ, String, Bool, true, false, Option, none, some}
use saltext_vmware.Json.{Json, obj, lookup, get_or}

pub record Request : Type 0 where
  pub method : String
  pub url : String
  pub params : Json
  pub body : Json
  pub auth : Option (Json × Json)
  pub token : Json
  pub verify : Json
  pub timeout : Json

-- `resp.json()`, or the message of the `ValueError` that it raises
pub data Parsed : Type 0 where
  parsed : Json → Parsed
  malformed : String → Parsed

-- `requests.Response`: `text` is `none` where reading it raises, `content` says that the body is not
-- empty, and `method` is that of `resp.request`.
pub record Response : Type 0 where
  pub status_code : ℕ
  pub reason : String
  pub url : String
  pub method : Option String
  pub text : Option String
  pub content : Bool
  pub json : Parsed

pub data Kind : Type 0 where
  http_error connection_error json_error runtime_error timeout_error value_error : Kind
  type_error attribute_error key_error : Kind

-- An exception: its class, `str(exc)`, and its attribute `response`.
pub record Exc : Type 0 where
  pub kind : Kind
  pub message : String
  pub response : Option Response

abbrev pub exc : Kind → String → Exc
exc k m = record { kind = k; message = m; response = none }

-- A call of `requests` gets a response, or raises for want of one.
pub data Reply : Type 0 where
  answered : Response → Reply
  failed : String → Reply

-- `out_of_fuel` is not a result of the program: a loop's rounds did not suffice.
pub data Result (A : Type 0) : Type 0 where
  ok : A → Result A
  err : Exc → Result A
  out_of_fuel : Result A

infixl 5 ◌>>=◌
abbrev pub ◌>>=◌ : {A B : Type 0} → Result A → (A → Result B) → Result B
ok a >>= f = f a
err e >>= f = err e
out_of_fuel >>= f = out_of_fuel

abbrev pub is_http_error : Exc → Bool
is_http_error e = elim e.kind [ http_error ↦ true | _ ↦ false ]

-- `v.get(key, default)`, which only a dict has
abbrev pub get : Json → String → Json → Result Json
get (obj fs) key default = ok (get_or fs key default)
get _ key default = err (exc attribute_error "object has no attribute 'get'")

-- `v[key]`
abbrev pub item : Json → String → Result Json
item (obj fs) key = elim (lookup fs key) [ none ↦ err (exc key_error key) | some v ↦ ok v ]
item _ key = err (exc type_error "object is not subscriptable by a string")
