-- ===== src/Terminal/Activity.antt =====
-- internal/agent/domain/terminal/activity.go: `ComputeActivity`.
pub mod Question
pub mod Rules
use constellate.Common.{◌&&◌, ◌==◌, Bool, true, false, if◌then◌else◌, Word, lt_int, sub_int}
use constellate.Vt.Emulator.State.{PromptState}

pub data Activity : Type 0 where
  active : Activity
  idle : Activity
  awaiting_input : Activity
  not_known : Activity

pub output_flowing : Word → Word → Word → Bool
output_flowing now last_output_at window =
    lt_int 0 last_output_at && lt_int (sub_int now last_output_at) window

-- The `switch prompt`.
pub stalled : Word → PromptState → Bool → Activity
stalled last_output_at PromptState.prompt_running question =
    if question then awaiting_input else active
stalled last_output_at PromptState.prompt_at_prompt question = idle
stalled last_output_at PromptState.prompt_unknown question =
    if last_output_at == 0 then not_known else if question then awaiting_input else idle

pub compute_activity : Word → Word → Word → PromptState → Bool → Activity
compute_activity now last_output_at window prompt question =
    if output_flowing now last_output_at window
    then active
    else stalled last_output_at prompt question
