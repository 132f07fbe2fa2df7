-- ===== src/Sddc/Caching.antt =====
-- The token cache of utils/sddc.py implements the abstract one.
use saltext_vmware.Base.{String, ◌==◌, ◌≡◌, refl, Option, none}
use saltext_vmware.Base.{if◌then◌else◌}
use saltext_vmware.Json.{Json}
use saltext_vmware.Http.{ok}
use saltext_vmware.Settings.{Connection}
use saltext_vmware.Dict.{find, find-drop}
use saltext_vmware.Exec.{Env, World, ◌>>=◌, lift, get_caches, put_caches}
use saltext_vmware.Sddc.Config.{get_config}
use saltext_vmware.Sddc.Session.{cache_key}
use saltext_vmware.Sddc.Session.{invalidate_token}

module _ ⦃E : Env⦄ where
  -- With a configuration that can be read, `invalidate_token` forgets the token of that
  -- configuration and no other, and sends nothing.
  pub invalidate_token_lem :
      (opts : Json) (profile : Option String) (cfg : Connection) (w : World E.State) (key : String)
      → get_config opts profile ≡ ok cfg
      → let w' = (invalidate_token opts profile w).1 in
        (find w'.caches.sddc key ≡ (if cache_key cfg == key then none else find w.caches.sddc key))
        × (w'.sent ≡ w.sent)
  unfolding invalidate_token ◌>>=◌ get_caches put_caches lift
  invalidate_token_lem opts profile cfg w key e =
      rw e (find-drop w.caches.sddc (cache_key cfg) key, refl)
