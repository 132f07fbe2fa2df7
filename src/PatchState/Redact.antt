-- ===== src/PatchState/Redact.antt =====
-- `_redact` and `_redact_user_data_entry` of states/vcf_vc_patch.py.
use saltext_vmware.Base.{String, ◌==◌, Bool, List, [], ◌∷◌, any, contains, lower, if◌then◌else◌}
use saltext_vmware.Json.{Json, null, bool, num, str, arr, obj, Items, nil, cons, Fields, end, field}
use saltext_vmware.Json.{get_or, insert}
use saltext_vmware.Exec.{Env, show}

abbrev pub sensitive_key_markers : List String
sensitive_key_markers = "password" ∷ "passwd" ∷ "secret" ∷ "token" ∷ []

abbrev pub redacted : Json
redacted = str "REDACTED"

unfoldable pub is_sensitive : String → Bool
unfolding contains lower
is_sensitive key = any (λ marker. contains marker (lower key)) sensitive_key_markers

module _ ⦃E : Env⦄ where
  unfoldable pub redact_user_data_entry : Json → Json
  unfolding is_sensitive
  redact_user_data_entry (obj item) =
      if is_sensitive (show (get_or item "key" (str "")))
      then obj (insert item "value" redacted)
      else obj item
  redact_user_data_entry item = item

  unfoldable pub redact_user_data : Items → Items
  unfolding redact_user_data_entry
  redact_user_data nil = nil
  redact_user_data (cons item items) = cons (redact_user_data_entry item) (redact_user_data items)

  -- The value under a key that is not sensitive; `deep` is `_redact(val)`.
  unfoldable pub user_data_or : Json → Json → Json
  unfolding redact_user_data
  user_data_or (arr items) deep = arr (redact_user_data items)
  user_data_or val deep = deep

  unfoldable pub redact_entry : String → Json → Json → Json
  unfolding is_sensitive user_data_or
  redact_entry key val deep =
      if is_sensitive key
      then redacted
      else if key == "user_data"
      then user_data_or val deep
      else deep

  unfoldable mutual
    pub redact : Json → Json
    redact (obj fs) = obj (redact_fields fs)
    redact (arr vs) = arr (redact_items vs)
    redact null = null
    redact (bool b) = bool b
    redact (num n) = num n
    redact (str s) = str s

    pub redact_items : Items → Items
    redact_items nil = nil
    redact_items (cons v vs) = cons (redact v) (redact_items vs)

    pub redact_fields : Fields → Fields
    redact_fields end = end
    redact_fields (field key val fs) =
        field key (redact_entry key val (redact val)) (redact_fields fs)
