-- ===== src/VcPatch/Errors.antt =====
-- The classification of exceptions in clients/vc_patch.py.
use saltext_vmware.Base.{ℕ, String, ◌<>◌, Bool, false, none, some, List, [], ◌∷◌, any, eqb}
use saltext_vmware.Base.{contains}
use saltext_vmware.Http.{Exc}

abbrev pub transient_status_codes : List ℕ
transient_status_codes = 401 ∷ 403 ∷ 404 ∷ 500 ∷ 502 ∷ 503 ∷ []

abbrev pub stage_timeout_markers : List String
stage_timeout_markers = "Timeout happens while waiting for task out file" ∷ "task out file" ∷ []

abbrev pub staging_in_progress_markers : List String
staging_in_progress_markers = "Update staging is in progress" ∷ "precheck.not_allowed_error" ∷ []

unfoldable pub error_text : Exc → String
error_text e = elim e.response [
  | none ↦ e.message
  | some resp ↦ elim resp.text [ none ↦ e.message | some t ↦ e.message <> " " <> t ]
]

unfoldable pub is_transient_error : Exc → Bool
is_transient_error e = elim e.response [
  | none ↦ false
  | some resp ↦ any (eqb resp.status_code) transient_status_codes
]

unfoldable pub is_stage_timeout_error : Exc → Bool
unfolding error_text contains
is_stage_timeout_error e = any (λ m. contains m (error_text e)) stage_timeout_markers

unfoldable pub is_staging_in_progress_error : Exc → Bool
unfolding error_text contains
is_staging_in_progress_error e = any (λ m. contains m (error_text e)) staging_in_progress_markers
