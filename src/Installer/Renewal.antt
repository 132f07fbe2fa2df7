-- ===== src/Installer/Renewal.antt =====
-- `_request` of utils/installer.py after a 401: the session is a new one.
use saltext_vmware.Base.{String, ◌≡◌, ◌⊎◌, Option}
use saltext_vmware.Base.{some, ◌∷◌, List}
use saltext_vmware.Json.{Json}
use saltext_vmware.Http.{Request, Exc, err}
use saltext_vmware.Settings.{Connection}
use saltext_vmware.Dict.{Dict, find}
use saltext_vmware.Exec.{Env, World, Bearer}
use saltext_vmware.Vcenter.Session.{Session}
use saltext_vmware.Installer.Session.{login, cache_key, login_request}
use saltext_vmware.Installer.Caching.{session_of}
use saltext_vmware.Installer.Api.{session_request}

module _ ⦃E : Env⦄ (method : String) (opts : Json) (path : String) (params body : Json)
    (profile : Option String) (cfg : Connection) where
  -- What a call does from the world `lost`, which has no session in the cache, and where `sent` was
  -- sent: the login is sent and fails, or the call goes out, after the login, with the session that
  -- the cache then holds.
  abbrev pub Renewed : List Request → World E.State → World E.State → Type 0
  Renewed sent lost w =
      ((x : Exc) × ((login cfg lost).0 ≡ err x) × (w.sent ≡ login_request cfg ∷ sent))
      ⊎ ((known : Bearer) × (find w.caches.installer (cache_key cfg) ≡ some known)
          × (w.sent
              ≡ session_request method path params body (session_of cfg known)
                ∷ login_request cfg
                ∷ sent))
