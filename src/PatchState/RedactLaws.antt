-- ===== src/PatchState/RedactLaws.antt =====
-- What `_redact` hides.
use saltext_vmware.Base.{String, ◌==◌, ◌≡◌, refl, ap, true, false, arith}
use saltext_vmware.Base.{if◌then◌else◌, Bool-cases, inl, inr}
use saltext_vmware.Json.{Json, str, arr, obj, Items, nil, cons, Fields, end, field}
use saltext_vmware.Json.{get_or, insert}
use saltext_vmware.Json.Laws.{insert-insert, get_or-insert_ne}
use saltext_vmware.Exec.{Env, show}
use saltext_vmware.PatchState.Redact.{
  is_sensitive, redacted, redact, redact_items, redact_fields, redact_entry, user_data_or,
  redact_user_data, redact_user_data_entry,
}

module _ ⦃E : Env⦄ where
  -- The entry names a credential.
  abbrev pub Names : Fields → Type 0
  Names item = is_sensitive (show (get_or item "key" (str ""))) ≡ true

  -- Two lists of `user_data` that differ only in the values of credentials
  pub data AlikeEntries : Items → Items → Type 0 where
    nil_alike : AlikeEntries nil nil
    same_entry :
        (v : Json) {vs ws : Items} → AlikeEntries vs ws → AlikeEntries (cons v vs) (cons v ws)
    other_value :
        (item : Fields) (s t : Json) {vs ws : Items}
        → Names item
        → AlikeEntries vs ws
        → AlikeEntries
            (cons (obj (insert item "value" s)) vs)
            (cons (obj (insert item "value" t)) ws)

  -- Two values that differ only in secrets that are hidden: under sensitive keys outside lists of
  -- `user_data`, and in these lists in the `value` of entries that name a credential.
  mutual
    pub data Alike : Json → Json → Type 0 where
      same : (v : Json) → Alike v v
      dicts : {fs gs : Fields} → AlikeFields fs gs → Alike (obj fs) (obj gs)
      lists : {vs ws : Items} → AlikeItems vs ws → Alike (arr vs) (arr ws)

    pub data AlikeItems : Items → Items → Type 0 where
      none_left : AlikeItems nil nil
      item_alike :
          {v w : Json} {vs ws : Items}
          → Alike v w
          → AlikeItems vs ws
          → AlikeItems (cons v vs) (cons w ws)

    pub data AlikeFields : Fields → Fields → Type 0 where
      no_more : AlikeFields end end
      secret :
          (key : String) (v w : Json) {fs gs : Fields}
          → is_sensitive key ≡ true
          → AlikeFields fs gs
          → AlikeFields (field key v fs) (field key w gs)
      same_field :
          (key : String) (v : Json) {fs gs : Fields}
          → AlikeFields fs gs
          → AlikeFields (field key v fs) (field key v gs)
      entries :
          (key : String) {vs ws : Items} {fs gs : Fields}
          → (key == "user_data") ≡ true
          → AlikeEntries vs ws
          → AlikeFields fs gs
          → AlikeFields (field key (arr vs) fs) (field key (arr ws) gs)
      plain :
          (key : String) {v w : Json} {fs gs : Fields}
          → (key == "user_data") ≡ false
          → Alike v w
          → AlikeFields fs gs
          → AlikeFields (field key v fs) (field key w gs)

  redact_value :
      (item : Fields) (s : Json)
      → Names item
      → redact_user_data_entry (obj (insert item "value" s)) ≡ obj (insert item "value" redacted)
  unfolding redact_user_data_entry
  redact_value item s h =
      rw (get_or-insert_ne item "value" "key" s (str "") refl, h)
        (ap obj (insert-insert item "value" s redacted))

  redact_user_data-AlikeEntries :
      {vs ws : Items} → AlikeEntries vs ws → redact_user_data vs ≡ redact_user_data ws
  unfolding redact_user_data
  redact_user_data-AlikeEntries nil_alike = refl
  redact_user_data-AlikeEntries (same_entry v r) = rw (redact_user_data-AlikeEntries r)
  redact_user_data-AlikeEntries (other_value item s t h r) =
      rw (redact_value item s h, redact_value item t h, redact_user_data-AlikeEntries r)

  mutual
    unfolding redact redact_entry user_data_or

    redact-Alike : {v w : Json} → Alike v w → redact v ≡ redact w
    redact-Alike (same v) = refl
    redact-Alike (dicts r) = ap obj (redact_fields-AlikeFields r)
    redact-Alike (lists r) = ap arr (redact_items-AlikeItems r)

    redact_items-AlikeItems : {vs ws : Items} → AlikeItems vs ws → redact_items vs ≡ redact_items ws
    redact_items-AlikeItems none_left = refl
    redact_items-AlikeItems (item_alike h r) = cc (redact-Alike h, redact_items-AlikeItems r)

    redact_fields-AlikeFields :
        {fs gs : Fields} → AlikeFields fs gs → redact_fields fs ≡ redact_fields gs
    redact_fields-AlikeFields no_more = refl
    redact_fields-AlikeFields (secret key v w h r) = rw (h, redact_fields-AlikeFields r)
    redact_fields-AlikeFields (same_field key v r) = rw (redact_fields-AlikeFields r)
    redact_fields-AlikeFields (entries key h us r) =
        rw (h, redact_user_data-AlikeEntries us, redact_fields-AlikeFields r)
    redact_fields-AlikeFields (plain key h u r) =
        rw (h, redact-Alike u, redact_fields-AlikeFields r)

  redact_user_data_entry_idem :
      (v : Json) → redact_user_data_entry (redact_user_data_entry v) ≡ redact_user_data_entry v
  unfolding redact_user_data_entry
  redact_user_data_entry_idem (obj item) =
      elim (Bool-cases (is_sensitive (show (get_or item "key" (str ""))))) [
        | inl named ↦ rw named (redact_value item redacted named)
        | inr other ↦ rw other (rw other)
      ]
  redact_user_data_entry_idem _ = refl

  redact_user_data_idem :
      (vs : Items) → redact_user_data (redact_user_data vs) ≡ redact_user_data vs
  unfolding redact_user_data
  redact_user_data_idem nil = refl
  redact_user_data_idem (cons v vs) = cc (redact_user_data_entry_idem v, redact_user_data_idem vs)

  -- A `user_data` entry whose one key is another than `key` is stored as it is, however sensitive
  -- that key: its value is not hidden.
  pub redact_user_data_leak :
      (key : String) (s : Json)
      → (key == "key") ≡ false
      → let response = obj (field "user_data" (arr (cons (obj (field key s end)) nil)) end) in
        redact response ≡ response
  unfolding redact redact_entry user_data_or redact_user_data redact_user_data_entry is_sensitive
  redact_user_data_leak key s h =
      let unnamed : get_or (field key s end) "key" (str "") ≡ str "" = ground arith in
      ap (λ (v : Json). obj (field "user_data" (arr (cons v nil)) end))
        (left (show (get_or (field key s end) "key" (str ""))) (ap show unnamed))
    where
      left :
          (name : String)
          → name ≡ ""
          → (if is_sensitive name
              then obj (insert (field key s end) "value" redacted)
              else obj (field key s end))
            ≡ obj (field key s end)
      left name e = rw e
