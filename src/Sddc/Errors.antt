-- ===== src/Sddc/Errors.antt =====
-- `_error_message` of clients/sddc_tasks.py, and the iteration and `join` that it calls.
use saltext_vmware.Base.{String, ◌<>◌, List, [], ◌∷◌, if◌then◌else◌}
use saltext_vmware.Json.{Json, null, str, arr, obj, Fields, nil, end, field, to_list, ◌or◌}
use saltext_vmware.Json.{truthy}
use saltext_vmware.Http.{exc, type_error, Result, ok, err, get}
use saltext_vmware.Exec.{Env, Exec, pure, lift, ◌>>=◌, show}

unfoldable pub keys : Fields → List Json
keys end = []
keys (field k v fs) = str k ∷ keys fs

unfoldable pub characters : String → List Json
characters String.[] = []
characters (String.◌∷◌ c s) = str (String.◌∷◌ c String.[]) ∷ characters s

-- `for e in v`
unfoldable pub iterate : Json → Result (List Json)
iterate (arr vs) = ok (to_list vs)
iterate (obj fs) = ok (keys fs)
iterate (str s) = ok (characters s)
iterate _ = err (exc type_error "object is not iterable")

-- A text of a list that `join` goes through
unfoldable pub as_text : Json → Result String
as_text (str s) = ok s
as_text _ = err (exc type_error "sequence item: expected str instance")

module _ ⦃E : Env⦄ where
  -- What follows the first text of `"; ".join(vs)`
  unfoldable pub join_rest : List Json → Exec String
  join_rest [] = pure ""
  join_rest (v ∷ vs) = do s ← lift (as_text v); rest ← join_rest vs; pure ("; " <> s <> rest)

  unfoldable pub join : List Json → Exec String
  join [] = pure ""
  join (v ∷ vs) = do s ← lift (as_text v); rest ← join_rest vs; pure (s <> rest)

  unfoldable pub message_of : Json → Exec Json
  message_of (obj fs) = do
    message ← lift (get (obj fs) "message" null)
    code ← lift (get (obj fs) "errorCode" null)
    pure (message or code or str (E.repr (obj fs)))
  message_of e = pure (str (show e))

  unfoldable pub messages : List Json → Exec (List Json)
  messages [] = pure []
  messages (e ∷ es) = do m ← message_of e; ms ← messages es; pure (m ∷ ms)

  unfoldable pub error_list : Json → Exec Json
  error_list errors = do es ← lift (iterate errors); ms ← messages es; s ← join ms; pure (str s)

  unfoldable pub error_message : Json → Exec Json
  error_message task = do
    found ← lift (get task "errors" null)
    if truthy (found or arr nil) then error_list (found or arr nil) else do
      status_message ← lift (get task "status_message" null)
      description ← lift (get task "description" null)
      pure (status_message or description or str "")
