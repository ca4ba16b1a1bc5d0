-- ===== src/Tests/Tasking.antt =====
-- One task function with parameters and a recorder, under its decorator.
use perago.Base.{
  true, false, Text, text, text_eq, is_blank, has_char, ◌≡◌, ◌↔◌, refl, [], ◌∷◌, none, some, Option,
  if◌then◌else◌,
}
use perago.Errors.{ok}
use perago.Models.{MetricSpec, TaskControls, RetryLogic, TimeoutAction}
use perago.Tasks.{
  Hint, metric_recorder, model_class, Parameter, Function, missing, given, Declaration,
  TaskDefinition, build_task_definition, definition_of,
}
use perago.Tasks.Definition.{IsTask, build_task_definition_iff}

abbrev default_controls : TaskControls
default_controls = record {
  retry = record {
    count = 3;
    logic = RetryLogic.fixed;
    delay_seconds = 60;
    max_delay_seconds = 0;
    jitter_ms = 0;
  };
  timeout = record {
    policy = TimeoutAction.time_out_wf;
    seconds = 3600;
    response_seconds = 600;
    poll_seconds = 3600;
    total_seconds = 0;
  };
  limits = record {
    concurrent_exec_limit = none;
    rate_limit_frequency_in_seconds = none;
    rate_limit_per_frequency = none;
  };
  publish_budget = none;
}

abbrev demo_metrics : MetricSpec
demo_metrics = record { attempts = true; workspace_io = false; worker_capacity = false }

abbrev plain_parameter : Text → Parameter
plain_parameter name = record { name = name; positional_or_keyword = true; has_default = false }

abbrev hints : Text → Option Hint
hints name = if text_eq name (text "metrics") then some metric_recorder else some (model_class 4)

abbrev score : Function
score = record {
  is_coroutine = false;
  parameters = plain_parameter (text "params") ∷ plain_parameter (text "metrics") ∷ [];
  type_hints = ok hints;
}

abbrev declaration : Declaration
declaration = record {
  name = text "features.score";
  owner_email = text "team@example.com";
  description = none;
  workspace = missing;
  metrics = given demo_metrics;
  controls = given default_controls;
  strict_params = given false;
}

abbrev pub defined : TaskDefinition
defined = definition_of declaration none (some demo_metrics) default_controls false (4, 4)

build_task_definition_iff_example :
    (build_task_definition score declaration ≡ ok defined) ↔ IsTask score declaration defined
build_task_definition_iff_example = build_task_definition_iff score declaration defined

-- The definition is made.
build_task_definition_test : build_task_definition score declaration ≡ ok defined
unfolding build_task_definition is_blank text has_char text_eq
build_task_definition_test = refl
