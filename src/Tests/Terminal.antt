-- ===== src/Tests/Terminal.antt =====
-- The scrollback and the activity of a session at concrete inputs.
use constellate.Common.{◌≡◌, true, not, ◌&&◌, ◌||◌, ◌==◌, List, [], ◌∷◌, arith}
use constellate.Vt.Emulator.State.{PromptState}
use constellate.Terminal.Activity.{compute_activity}
use constellate.Terminal.Activity.Rules.{
  is_recent, is_active, is_awaiting, is_idle, prompt_waits, is_not_known, prompt_runs,
  prompt_unseen, compute_activity_rules,
}
use constellate.Terminal.Scrollback.{new, read_from}
use constellate.Terminal.Scrollback.History.{
  Call, writes, closes, calls, written, is_closed, read_all, read_from-calls,
}

abbrev printed : List Call
printed = writes (1 ∷ 2 ∷ []) ∷ writes (3 ∷ 4 ∷ 5 ∷ []) ∷ closes ∷ []

read_from-calls_example :
    read_from 5 (calls printed (new 3))
    ≡ read_all (new 3).max (is_closed printed) 5 (written printed)
unfolding written
read_from-calls_example = read_from-calls 3 5 printed (omega arith) (omega arith)

abbrev unseen : PromptState
unseen = PromptState.prompt_unknown

compute_activity_rules_example :
    (is_active (compute_activity 90 0 2 unseen true)
      ≡ (is_recent 90 0 2 || (prompt_runs unseen && not true)))
    × (is_awaiting (compute_activity 90 0 2 unseen true) ≡ (
        not (is_recent 90 0 2)
        && true
        && (prompt_runs unseen || (prompt_unseen unseen && not (0 == 0)))))
    × (is_idle (compute_activity 90 0 2 unseen true) ≡ (
        not (is_recent 90 0 2)
        && (prompt_waits unseen || (prompt_unseen unseen && not (0 == 0) && not true))))
    × (is_not_known (compute_activity 90 0 2 unseen true)
        ≡ (prompt_unseen unseen && not (not (0 == 0))))
compute_activity_rules_example =
    compute_activity_rules 90 0 2 unseen true (omega arith) (omega arith) (omega arith)
