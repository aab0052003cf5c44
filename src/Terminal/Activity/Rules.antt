-- ===== src/Terminal/Activity/Rules.antt =====
-- `ComputeActivity` against conditions for each answer.
use constellate.Common.{
  ◌≡◌, ◌<◌, ◌≤◌, ◌+◌, ◌-◌, ◌^◌, Bool, true, false, not, ◌&&◌, ◌||◌, ◌==◌, Bool-cases, inl, inr,
  Word, arith, ltb, leb, sub_int-small, sub_int-negative, lt_int-small, lt_int-negative,
}
use constellate.Vt.Emulator.State.{PromptState}
use constellate.Terminal.Activity.{
  Activity, active, idle, awaiting_input, not_known, output_flowing, stalled, compute_activity,
}

-- There was output, and less than the window ago, or ahead of the clock.
unfoldable pub is_recent : Word → Word → Word → Bool
is_recent now last_output_at window = ltb 0 last_output_at && ltb now (last_output_at + window)

-- With times and a window below 2 ^ 62 no difference wraps.
output_flowing-is_recent :
    (now last_output_at window : Word)
    → now < 2 ^ 62
    → last_output_at < 2 ^ 62
    → window < 2 ^ 62
    → output_flowing now last_output_at window ≡ is_recent now last_output_at window
unfolding output_flowing is_recent
output_flowing-is_recent now last window a b c = elim (Bool-cases (leb last now)) [
  | inl o ↦
      let h : last ≤ now = ground (arith, o) in
      rw
        (
          sub_int-small now last h (omega arith),
          lt_int-small 0 last (omega arith) (omega arith),
          lt_int-small (now - last) window (omega arith) (omega arith),
        )
        (ground (arith, h))
  | inr o ↦
      let h : now < last = ground (arith, o) in
      rw
        (
          sub_int-negative now last h (omega arith),
          lt_int-small 0 last (omega arith) (omega arith),
          lt_int-negative (now + 2 ^ 64 - last) window (omega arith) (omega arith) (omega arith),
        )
        (ground (arith, h))
]

abbrev pub is_active : Activity → Bool
is_active active = true
is_active _ = false

abbrev pub is_awaiting : Activity → Bool
is_awaiting awaiting_input = true
is_awaiting _ = false

abbrev pub is_not_known : Activity → Bool
is_not_known not_known = true
is_not_known _ = false

abbrev pub prompt_runs : PromptState → Bool
prompt_runs PromptState.prompt_running = true
prompt_runs _ = false

abbrev pub prompt_waits : PromptState → Bool
prompt_waits PromptState.prompt_at_prompt = true
prompt_waits _ = false

abbrev pub prompt_unseen : PromptState → Bool
prompt_unseen PromptState.prompt_unknown = true
prompt_unseen _ = false

abbrev pub is_idle : Activity → Bool
is_idle idle = true
is_idle _ = false

module _ (now last_output_at window : Word) (prompt : PromptState) (question : Bool) where
  abbrev answer : Activity
  answer = compute_activity now last_output_at window prompt question

  abbrev recent : Bool
  recent = is_recent now last_output_at window

  abbrev seen : Bool
  seen = not (last_output_at == 0)

  -- With times and a window below 2 ^ 62: a session is active exactly if there was output less
  -- than the window ago or ahead of the clock, or a command runs with no question at the end; it
  -- awaits input exactly if there was no such output, a question stands at the end, and a command
  -- runs, or no prompt marker was seen and there was output; it is idle exactly if there was no
  -- such output and it is at a prompt, or no marker was seen, there was output and no question
  -- stands at the end; and it is unknown exactly if no marker was seen and there never was output,
  -- question or not.
  pub compute_activity_rules :
      now < 2 ^ 62
      → last_output_at < 2 ^ 62
      → window < 2 ^ 62
      → (is_active answer ≡ (recent || (prompt_runs prompt && not question)))
        × (is_awaiting answer
            ≡ (not recent && question && (prompt_runs prompt || (prompt_unseen prompt && seen))))
        × (is_idle answer ≡ (
            not recent && (prompt_waits prompt || (prompt_unseen prompt && seen && not question))))
        × (is_not_known answer ≡ (prompt_unseen prompt && not seen))
  unfolding compute_activity stalled
  compute_activity_rules a b c =
      rw (output_flowing-is_recent now last_output_at window a b c)
        (unfold is_recent in ground arith)
