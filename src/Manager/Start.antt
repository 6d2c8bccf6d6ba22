-- ===== src/Manager/Start.antt =====
-- `init` and `main` of cmd/main.go: a sequence of calls, each of which ends the process if it fails.
use schema_strimzi_operator.Prelude.{
  ℕ, String, Option, none, some, List, ◌∷◌, ◌==◌, string_eq, not, if◌then◌else◌,
}
use schema_strimzi_operator.Error.{Error}
use schema_strimzi_operator.Api.SchemaTypes.{Schema}
use schema_strimzi_operator.Api.RegistryTypes.{SchemaRegistry}
use schema_strimzi_operator.World.{World}
use schema_strimzi_operator.Manager.Options.{Flags, ManagerOptions, manager_options}
use schema_strimzi_operator.Manager.Setup.{
  ControllerSetup, Validator, setup_schema_reconciler, setup_schema_registry_reconciler,
  setup_schema_webhook, setup_schema_registry_webhook,
}

-- A call of controller-runtime or client-go that may fail.
pub data Call : Type 0 where
  -- `clientgoscheme.AddToScheme(scheme)` and `registryv1alpha1.AddToScheme(scheme)`
  add_client_go_types add_v1alpha1_types : Call
  -- `ctrl.GetConfigOrDie()`
  get_config : Call
  new_manager : ManagerOptions → Call
  add_controller : ControllerSetup → Call
  add_schema_webhook : Validator Schema → Call
  add_schema_registry_webhook : Validator SchemaRegistry → Call
  add_healthz_check add_readyz_check : String → Call
  -- `mgr.Start`, which returns when the manager stops.
  start : Call

-- The calls so far with what they returned, the latest first.
abbrev pub Log : Type 0
Log = List (Call × Option Error)

-- What a call returns, after the calls so far.
abbrev pub Host : Type 0
Host = Log → Call → Option Error

-- `exited` is the end of the process by `os.Exit` or a panic, with its exit code.
pub data Status : Type 0 where
  going : Status
  exited : ℕ → Status

abbrev pub Script : Type 0
Script = Log → Status × Log

abbrev pub proceed : Status → Script → Script
proceed going k log = k log
proceed (exited code) k log = (exited code, log)

infixl 5 ◌>>◌
unfoldable pub ◌>>◌ : Script → Script → Script
◌>>◌ m k log = let (status, log') = m log in proceed status k log'

abbrev pub status_of : ℕ → Option Error → Status
status_of code none = going
status_of code (some e) = exited code

module _ (host : Host) where
  -- A call, with the exit code if it fails.
  unfoldable pub call : ℕ → Call → Script
  call code c log = let answer = host log c in (status_of code answer, (c, answer) ∷ log)

  -- `if err := …; err != nil { os.Exit(1) }`
  unfoldable pub or_exit : Call → Script
  unfolding call
  or_exit c = call 1 c

  -- `utilruntime.Must`, which panics.
  unfoldable pub must : Call → Script
  unfolding call
  must c = call 2 c

  unfoldable pub skip : Script
  skip log = (going, log)

  unfoldable pub init : Script
  unfolding must ◌>>◌
  init = do must add_client_go_types; must add_v1alpha1_types

  -- The flags are those of the command line, and `enable_webhooks` is the environment variable
  -- ENABLE_WEBHOOKS, or "" if it is not set.
  unfoldable pub main : World → Flags → String → Script
  unfolding or_exit skip ◌>>◌
  main w flags enable_webhooks = do
    or_exit get_config
    or_exit (new_manager (manager_options flags))
    or_exit (add_controller (setup_schema_reconciler w))
    or_exit (add_controller (setup_schema_registry_reconciler w))
    if not (enable_webhooks == "false")
        then or_exit (add_schema_webhook (setup_schema_webhook w))
        else skip
    if not (enable_webhooks == "false")
        then or_exit (add_schema_registry_webhook (setup_schema_registry_webhook w))
        else skip
    or_exit (add_healthz_check "healthz")
    or_exit (add_readyz_check "readyz")
    or_exit start

  -- The whole process: `init` runs before `main`.
  unfoldable pub process : World → Flags → String → Script
  unfolding init main ◌>>◌
  process w flags enable_webhooks = init >> main w flags enable_webhooks
