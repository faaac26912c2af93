-- ===== src/Controller/Reconcile/Serial.antt =====
-- internal/controller/app_controller.go: a pass that starts a build, or finds one active, starts no
-- cleanup.
use toggle_web_baker.Common.{ℕ, ◌<◌, ◌≡◌, ◌⊎◌, length, List, ok}
use toggle_web_baker.Cluster.{Job}
use toggle_web_baker.Controller.Exec.{Client, RunState}
use toggle_web_baker.Controller.Build.{build_labels_for, build_step}
use toggle_web_baker.Controller.Build.Unfinished.{SomeUnfinished}
use toggle_web_baker.Controller.Reconcile.{Parts}

module _ {W Q C : Type 0} (parts : Parts W Q C) (client : Client W) (now : ℕ) where
  -- Step 8 created a Job, or the API server listed a build Job that has neither completed nor failed.
  abbrev pub Busy : C → RunState W → Type 0
  Busy cred s =
      (length s.creates < length (build_step (parts.build_job cred) client now s).1.creates)
      ⊎ ((jobs : List Job) × (client.list_jobs s.app.namespace (build_labels_for s.app) s.world
            ≡ ok jobs)
          × SomeUnfinished jobs)
