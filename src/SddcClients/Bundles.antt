-- ===== src/SddcClients/Bundles.antt =====
-- clients/sddc_bundles.py.
use saltext_vmware.Base.{String, ◌<>◌, true, Option}
use saltext_vmware.Json.{Json, null, bool, obj, field, end}
use saltext_vmware.Exec.{Env, Exec, show}
use saltext_vmware.Rest.{or_none}
use saltext_vmware.Sddc.Api.{api_get, api_post, api_patch, api_delete}

abbrev path : String
path = "/v1/bundles"

module _ ⦃E : Env⦄ (opts : Json) where
  unfoldable pub list : Option String → Exec Json
  list profile = api_get opts path null profile

  unfoldable pub get : Json → Option String → Exec Json
  get bundle_id profile = api_get opts (path <> "/" <> show bundle_id) null profile

  unfoldable pub get_or_none : Json → Option String → Exec Json
  get_or_none bundle_id profile = or_none (get bundle_id profile)

  unfoldable pub download : Json → Option String → Exec Json
  download bundle_id profile =
      api_patch opts (path <> "/" <> show bundle_id)
        (obj (field "bundleDownloadSpec" (obj (field "downloadNow" (bool true) end)) end)) profile

  unfoldable pub upload : Json → Json → Json → Option String → Exec Json
  upload bundle_file_path manifest_file_path signature_file_path profile =
      api_post opts path
        (obj (
          field "bundleUploadSpec"
            (obj (
              field "bundleFilePath" bundle_file_path (
                field "manifestFilePath" manifest_file_path
                  (field "signatureFilePath" signature_file_path end))))
            end))
        profile

  unfoldable pub delete : Json → Option String → Exec Json
  delete bundle_id profile = api_delete opts (path <> "/" <> show bundle_id) profile

  unfoldable pub for_skip_upgrade : Json → Option String → Exec Json
  for_skip_upgrade domain_id profile =
      api_get opts (path <> "/domains/" <> show domain_id) null profile
