-- ===== src/Stream.antt =====
-- The subjects of stream/setup.go. A target stands in a subject by its base64.
use Prim.Native.String.{◌++◌ as append}
use ebind.Base.{String, ◌==◌, if◌then◌else◌}

abbrev pub task_subject : String → String
task_subject name = append "TASKS." name

-- `TargetToken`, which is package base64.
module _ (target_token : String → String) where
  abbrev pub targeted_task_subject : String → String → String
  targeted_task_subject target name =
      append "TASKS_TARGET." (append (target_token target) (append "." name))

  abbrev pub targeted_task_filter : String → String
  targeted_task_filter target = append "TASKS_TARGET." (append (target_token target) ".>")

  abbrev pub task_publish_subject : String → String → String
  task_publish_subject name target =
      if target == "" then task_subject name else targeted_task_subject target name
