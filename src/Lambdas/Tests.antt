-- ===== src/Lambdas/Tests.antt =====
-- Examples for the functions of infra/live/dev/lambda/.
use infra_lab.Base.{true, ◌≡◌, refl, [], ◌∷◌, ok, List, keep_if}
use infra_lab.Base.Effects.{Spares}
use infra_lab.Lambdas.AutoStop.{
  Aws, Event, handler, handler-stop, is_stop, readable, stop_cluster, is_start, is_enabled,
}
use infra_lab.Lambdas.Dispatch.{
  Call, Services, Settings, secret, extract_bearer_token, wake, is_dispatch, wake-Spares,
}

abbrev switched_on : Aws
switched_on = record { get_parameter = λ h name. ok "True"; stop_cluster = λ h id. ok tt }

abbrev started : Event
started = record { source_identifier = "db-1"; message = "DB cluster started" }

handler-stop_example :
    keep_if (is_stop switched_on) (handler switched_on started []).1 ≡ stop_cluster "db-1" ∷ []
unfolding is_start is_enabled
handler-stop_example = handler-stop switched_on started [] true (readable "True")

abbrev services : Services
services = record { get_secret = λ h arn. ok "right"; dispatch = λ h repo file action pat. ok 204 }

abbrev settings : Settings
settings = record {
  github_repo = "jpfreeley/infra-lab";
  workflow_file = "mempalace-toggle.yml";
  wake_token_arn = "arn:wake";
  github_pat_arn = "arn:pat";
}

reads_right : (made : List Call) → (secret services settings "arn:wake" made).0 ≡ ok "right"
unfolding secret
reads_right made = refl

wake-Spares_example :
    Spares
      (is_dispatch services settings)
      (wake services settings (("authorization", "Bearer wrong") ∷ []))
unfolding extract_bearer_token
wake-Spares_example =
    wake-Spares services settings (("authorization", "Bearer wrong") ∷ []) "right" reads_right refl
