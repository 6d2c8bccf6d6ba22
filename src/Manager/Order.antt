-- ===== src/Manager/Order.antt =====
-- In which order the process makes its calls, and how it ends.
use schema_strimzi_operator.Prelude.{
  ℕ, String, Bool, true, false, Option, none, some, List, [], ◌∷◌, ◌++◌, ◌≡◌, ◌≢◌, inl, inr, refl,
  sym, arith, ◌==◌, string_eq, not, if◌then◌else◌, Any, All, Option-cases, ◌∙◌,
}
use mathlib.Core.Path.{subst}
use schema_strimzi_operator.Error.{Error}
use schema_strimzi_operator.World.{World}
use schema_strimzi_operator.Manager.Options.{Flags, manager_options}
use schema_strimzi_operator.Manager.Setup.{
  setup_schema_reconciler, setup_schema_registry_reconciler, setup_schema_webhook,
  setup_schema_registry_webhook,
}
use schema_strimzi_operator.Manager.Start.{
  Call, add_client_go_types, add_v1alpha1_types, get_config, new_manager, add_controller,
  add_schema_webhook, add_schema_registry_webhook, add_healthz_check, add_readyz_check, start, Log,
  Host, Status, going, exited, Script, proceed, status_of, ◌>>◌, call, or_exit, must, skip, init,
  main, process,
}

-- The exit code of a process in which this call fails.
abbrev pub exit_code : Call → ℕ
exit_code add_client_go_types = 2
exit_code add_v1alpha1_types = 2
exit_code _ = 1

abbrev pub webhooks_and_checks : World → Bool → List Call
webhooks_and_checks w true = add_healthz_check "healthz" ∷ add_readyz_check "readyz" ∷ []
webhooks_and_checks w false =
    add_schema_webhook (setup_schema_webhook w)
    ∷ add_schema_registry_webhook (setup_schema_registry_webhook w)
    ∷ add_healthz_check "healthz"
    ∷ add_readyz_check "readyz"
    ∷ []

-- The calls that are made before the manager is started, if all succeed.
abbrev pub preparations : World → Flags → String → List Call
preparations w flags enable_webhooks =
    add_client_go_types
    ∷ add_v1alpha1_types
    ∷ get_config
    ∷ new_manager (manager_options flags)
    ∷ add_controller (setup_schema_reconciler w)
    ∷ add_controller (setup_schema_registry_reconciler w)
    ∷ webhooks_and_checks w (enable_webhooks == "false")

preparations-ne :
    (w : World) (flags : Flags) (off : Bool)
    → All
        (λ c. c ≢ start)
        (add_client_go_types
          ∷ add_v1alpha1_types
          ∷ get_config
          ∷ new_manager (manager_options flags)
          ∷ add_controller (setup_schema_reconciler w)
          ∷ add_controller (setup_schema_registry_reconciler w)
          ∷ webhooks_and_checks w off)
preparations-ne w flags true = ground arith
preparations-ne w flags false = ground arith

-- The call was made and succeeded, or was made at all.
abbrev Made : Log → Call → Type 0
Made log c = Any (λ made. made ≡ (c, none)) log

abbrev Tried : Log → Call → Type 0
Tried log c = Any (λ made. made.0 ≡ c) log

proceed_assoc :
    (s : Status) (n k : Script) (log : Log)
    → proceed (proceed s n log).0 k (proceed s n log).1 ≡ proceed s (n >> k) log
unfolding ◌>>◌
proceed_assoc going n k log = refl
proceed_assoc (exited code) n k log = refl

then_assoc : (m n k : Script) (log : Log) → (m >> n >> k) log ≡ (m >> (n >> k)) log
unfolding ◌>>◌
then_assoc m n k log = proceed_assoc (m log).0 n k (m log).1

proceed_congr :
    (s : Status) (k k' : Script) (log : Log)
    → ((log : Log) → k log ≡ k' log)
    → proceed s k log ≡ proceed s k' log
proceed_congr going k k' log same = same log
proceed_congr (exited code) k k' log same = refl

module _ (host : Host) where
  -- The calls one after the other, up to the first that fails.
  pub follow : List Call → Script
  follow [] log = (going, log)
  follow (c ∷ cs) log =
      let answer = host log c in
      proceed (status_of (exit_code c) answer) (follow cs) ((c, answer) ∷ log)

  call-follow :
      (c : Call) {k : Script} (cs : List Call)
      → ((log : Log) → k log ≡ follow cs log)
      → (log : Log) → (call host (exit_code c) c >> k) log ≡ follow (c ∷ cs) log
  unfolding ◌>>◌ call follow
  call-follow c {k} cs same log = proceed_congr _ k (follow cs) _ same

  skip-follow :
      {k : Script} (cs : List Call)
      → ((log : Log) → k log ≡ follow cs log)
      → (log : Log) → (skip host >> k) log ≡ follow cs log
  unfolding ◌>>◌ skip
  skip-follow cs same = same

  last-follow : (c : Call) (log : Log) → call host (exit_code c) c log ≡ follow (c ∷ []) log
  unfolding call follow
  last-follow c log = elim (Option-cases (host log c)) [
    | inl fine ↦ rw fine refl
    | inr (e, failed) ↦ rw failed refl
  ]

  -- The calls for the webhooks, which may be off, and those after them.
  webhooks-follow :
      (w : World) (off : Bool) (log : Log)
      → ((if not off then or_exit host (add_schema_webhook (setup_schema_webhook w)) else skip host)
            >> ((if not off
                  then or_exit host (add_schema_registry_webhook (setup_schema_registry_webhook w))
                  else skip host)
                >> (or_exit host (add_healthz_check "healthz")
                    >> (or_exit host (add_readyz_check "readyz") >> or_exit host start))))
          log
        ≡ follow (webhooks_and_checks w off ++ (start ∷ [])) log
  unfolding or_exit
  webhooks-follow w true = skip-follow _ (
      skip-follow _ (
        call-follow (add_healthz_check "healthz") _
          (call-follow (add_readyz_check "readyz") _ (last-follow start))))
  webhooks-follow w false = call-follow (add_schema_webhook _) _ (
      call-follow (add_schema_registry_webhook _) _ (
        call-follow (add_healthz_check "healthz") _
          (call-follow (add_readyz_check "readyz") _ (last-follow start))))

  -- A process makes the preparations one after the other and then starts the manager, and ends at
  -- the first call that fails, with the exit code for this call; it returns from `main` if all
  -- succeed.
  pub process-follow :
      (w : World) (flags : Flags) (enable_webhooks : String) (log : Log)
      → process host w flags enable_webhooks log
        ≡ follow (preparations w flags enable_webhooks ++ (start ∷ [])) log
  unfolding process init main must or_exit
  process-follow w flags enable_webhooks log =
      then_assoc (must host add_client_go_types) (must host add_v1alpha1_types) _ log
      ∙ call-follow add_client_go_types _
          (call-follow add_v1alpha1_types _ (
            call-follow get_config _ (
              call-follow (new_manager _) _ (
                call-follow (add_controller _) _ (
                  call-follow (add_controller _) _
                    (webhooks-follow w (enable_webhooks == "false")))))))
          log

  proceed-Any :
      (P : Call × Option Error → Type 0) (s : Status) (k : Script) (log : Log)
      → ((log : Log) → Any P log → Any P (k log).1)
      → Any P log
      → Any P (proceed s k log).1
  proceed-Any P going k log keeps m = keeps log m
  proceed-Any P (exited code) k log keeps m = m

  follow-Any :
      (P : Call × Option Error → Type 0) (cs : List Call) (log : Log)
      → Any P log
      → Any P (follow cs log).1
  unfolding follow
  follow-Any P [] log m = m
  follow-Any P (c ∷ cs) log m =
      proceed-Any P (status_of (exit_code c) (host log c)) (follow cs) ((c, host log c) ∷ log)
        (follow-Any P cs) (inr m)

  proceed_last :
      (answer : Option Error) (c d : Call) (cs : List Call) (code : ℕ) (k : Script) (log : Log)
      → ((log : Log) → Made log c → Made (k log).1 c)
      → ((log : Log) → ¬ Tried log d → Tried (k log).1 d → All (Made (k log).1) cs)
      → c ≢ d
      → ¬ Tried log d
      → Tried (proceed (status_of code answer) k ((c, answer) ∷ log)).1 d
      → All (Made (proceed (status_of code answer) k ((c, answer) ∷ log)).1) (c ∷ cs)
  proceed_last none c d cs code k log keeps rest other before m = (
    keeps ((c, none) ∷ log) (inl refl),
    rest ((c, none) ∷ log) (λ n. elim n [ inl same ↦ other same | inr n ↦ before n ]) m,
  )
  proceed_last (some e) c d cs code k log keeps rest other before m =
      absurd (elim m [ inl same ↦ other same | inr n ↦ before n ])

  -- Where the last call of a list is made, all calls before it have succeeded.
  follow_last :
      (cs : List Call) (d : Call)
      → All (λ c. c ≢ d) cs
      → (log : Log) → ¬ Tried log d
      → Tried (follow (cs ++ (d ∷ [])) log).1 d
      → All (Made (follow (cs ++ (d ∷ [])) log).1) cs
  unfolding follow
  follow_last [] d others log before m = tt
  follow_last (c ∷ cs) d (other, others) log before m =
      proceed_last (host log c) c d cs (exit_code c) (follow (cs ++ (d ∷ []))) log
        (follow-Any (λ made. made ≡ (c, none)) (cs ++ (d ∷ []))) (follow_last cs d others) other
        before m

  -- Where a process has tried to start the manager, every preparation was made and succeeded: the
  -- types are registered, both controllers and both checks are added, and so are both webhooks
  -- unless ENABLE_WEBHOOKS is "false".
  process-starts :
      (w : World) (flags : Flags) (enable_webhooks : String)
      → Tried (process host w flags enable_webhooks []).1 start
      → All
          (Made (process host w flags enable_webhooks []).1)
          (preparations w flags enable_webhooks)
  process-starts w flags enable_webhooks =
      subst (λ run. Tried run.1 start → All (Made run.1) (preparations w flags enable_webhooks))
        (sym (process-follow w flags enable_webhooks []))
        (follow_last (preparations w flags enable_webhooks) start
          (preparations-ne w flags (enable_webhooks == "false")) [] (λ n. n))
