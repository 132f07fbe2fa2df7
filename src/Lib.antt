-- ===== src/Lib.antt =====
-- Verification of saltext.vcf, a Salt extension for VMware Cloud Foundation: the patching of
-- appliances and hosts, the bringup of a management domain, domains, hosts and the password
-- policy of SDDC Manager, and the connections and REST clients below them.
--
-- The parts and how they interact. A state (src/saltext/vcf/states/*.py) reads its settings from
-- Salt's pillar, asks a client (src/saltext/vcf/clients/*.py) what a product has, and changes it
-- unless Salt runs with `test=True`. The client sends its requests through the session of its
-- product (src/saltext/vcf/utils/vcenter.py, sddc.py, installer.py, vrli.py), which caches a token
-- for each host and user, logs in where there is none, and raises an HTTPError for a status from
-- 400 on; those of the installer and of the log server log in once more after a 401.
--
-- The files:
--   Base, Base/Tests, Base/Text: names of the library, Boolean tests, and the functions of Python's
--     library on texts that the program calls (`str.lower`, `str.strip`, `in`, `quote`).
--   Json, Json/Laws, Json/Equal: JSON values and Python dicts, and their `==`. Dict: dicts from
--     texts to values of one type, for the caches.
--   Http, Http/Done: requests, responses, exceptions and results. Settings: what the `get_config`
--     functions have in common.
--   Exec: code that sends requests and may raise. Exec/Keeps, Exec/Later, Exec/Total, Exec/Returns,
--     Exec/Ensures, Exec/Costs and Exec/Runs are its rules: invariants of the history, ending,
--     postconditions on the result and on the world, the number of requests, equations.
--   TokenCache: the abstract token cache, which the caches of the products refine.
--   Waiting: the loop of the waits of clients/sddc_tasks.py and clients/installer_bringup.py; proofs
--     in Ending, Reaching, Returning, Keeping and Counting.
--   Vcenter: utils/vcenter.py. Config (`get_config`, `_resolve_timeout`), Session (`get_session`,
--     `invalidate_session`), Api (`_raise_for_status`, `api_get` to `api_delete`), Task
--     (`wait_for_task`); proofs in Caching, Reading, Ending, TaskEnding and Outcomes.
--   VcPatch: clients/vc_patch.py. Errors, Updates (the REST calls), Matching (`staged_matches`,
--     `_match_version`), Resolve (`resolve_update_version`), Polling (`wait_for_staged_update`,
--     `monitor_stage`, `monitor_install`); proofs in Ending, Reading, Outcomes, Retries,
--     MatchingLaws and ResolveLaws.
--   PatchState: states/vcf_vc_patch.py. Ret (`_ret`, `_fail`, `_cfg`, `_opt`), Redact (`_redact`),
--     Repository (`repository_configured`), Prepare (`update_prepared`), Install
--     (`update_installed`, `installed`); proofs in DryRun, Staging, Failing and RedactLaws.
--   PatchModule: modules/vcf_vc_patch.py, the execution module over the client.
--   Vlcm: clients/esxi_vlcm.py. Depots, Images (desired images, drafts and the apply policy),
--     Lifecycle (actions, reports and `wait_for_task`).
--   VlcmModule: modules/vcf_esxi_vlcm.py. InstallerModule: modules/vcf_installer_bringup.py.
--     SddcModules and VcenterModules: the execution modules of the clients in SddcClients and
--     VcenterClients; SddcModules/Confirming has proofs on the wait for a task.
--   VlcmState: states/vcf_esxi_vlcm.py. Settings (`_pillar_section`, `_task_settings`), Values
--     (`_base_version`, `_first_draft_id`, the search of a depot), Attempt (a `try` that ends in
--     `_fail`), Depot (`depot_configured`, `depot_synced`), Importing and Image (`image_configured`),
--     Policy (`policy_configured`), Step (`compliance_checked` to `remediated`, `reported`); proofs
--     in DryRun, Landing, Landed, Finding, Present and Matching.
--   Sddc: utils/sddc.py (Config, Session, Api) and clients/sddc_tasks.py (Tasks, Errors for
--     `_error_message`); proofs in Caching, Reading, Ending, Outcomes and
--     Succeeding.
--   Installer: utils/installer.py (Config, Session, Api with `_request`) and
--     clients/installer_bringup.py (Bringup); proofs in Caching, Retry, Renewal, Reading, Ending and
--     Outcomes.
--   BringupState: states/vcf_installer_bringup.py. Steps (`_find_active_sddc`, `validated`), Complete
--     (`complete`); proofs in Reusing, Submitting, Confirmed, Bounds and Ending.
--   PasswordPolicy: Client (clients/sddc_manager_password_policy.py and `run` of utils/ssh.py),
--     State (states/vcf_sddc_manager_password_policy.py); proofs in RoundTrip and Effects.
--   Vrli: utils/vrli.py. Config, Session (`get_token`, `_acquire_token`), Api (`_request`,
--     `_looks_like_session_expired`); proofs in Freshness and Retry.
--   SddcStates: states/vcf_sddc_domain.py (Domain), vcf_sddc_host.py (Host) and vcf_sddc_manager.py
--     (Manager); proofs in DryRun and Marking.
--   Rest: what the REST clients share (`get_or_none`, the search by name); Rest/Answers has its laws.
--   SddcClients, VcenterClients: a file for each of clients/sddc_*.py and clients/vcenter_*.py, with
--     the functions that are single REST calls, under the names of the source.
--   Tests: runs against a machine that answers from a script.
--
-- The model. A computation takes a world and returns a result beside the world after it; what was
-- done before an exception stays done. The world holds the remote machines, the caches of the
-- modules, and the histories of the requests and of the ssh commands that were sent, the newest
-- first; the code does not read the histories. `requests` and ssh with the machines behind them, the
-- clock, and Python's `repr`, `int` of a text, `json.dumps`, `json.loads` and the message of
-- requests' own `raise_for_status` are fields of the record `Env`, and every theorem holds for each
-- of them. A theorem on ending takes an `IsClock` too: time does not go back, and `sleep` takes at
-- least as long as it says. A cached `requests.Session` is a record of its header and of `verify`,
-- which are all that the code sets.
--
-- Bounds. The clock counts in the unit of the timeouts. A loop takes fuel: `timeout + 1` rounds for
-- `wait_for_task` of utils/vcenter.py and for the loop of Waiting, `timeout + 2` for the loops of
-- clients/vc_patch.py, which test the deadline after a round, and for the precheck loop. With a
-- positive poll interval each round but the last sleeps for at least one unit before the deadline,
-- which makes them enough. The precheck loop does not sleep, and its fuel is enough only where each
-- request takes time. The expiry of a token of utils/vrli.py is kept in fifths of the unit, since the
-- code renews it after 0.80 of its time to live.
--
-- Not modelled: a poll interval of the vLCM client's `wait_for_task` that is no number and is never
-- slept for (the model raises before the first poll), log lines and what only they read
-- (`last_state`), `disable_warnings`, negative and fractional numbers, the interleaving of several
-- processes, a password policy that is JSON but no dict (the model raises), the functions of the
-- vCenter clients that build their body from optional arguments or use SOAP, and the other products
-- that the extension drives (their clients, states and modules).
pub mod Base
pub mod BringupState
pub mod Dict
pub mod Exec
pub mod Http
pub mod Installer
pub mod InstallerModule
pub mod Json
pub mod PasswordPolicy
pub mod PatchModule
pub mod PatchState
pub mod Rest
pub mod Sddc
pub mod SddcClients
pub mod SddcModules
pub mod SddcStates
pub mod Settings
pub mod Tests
pub mod TokenCache
pub mod VcPatch
pub mod Vcenter
pub mod VcenterClients
pub mod VcenterModules
pub mod Vlcm
pub mod VlcmModule
pub mod VlcmState
pub mod Vrli
pub mod Waiting
