-- ===== src/Tests/Watcher.antt =====
-- A note that changes twice, and a watcher that is stopped before it delivers.
use brain_mcp.Base.{◌≡◌, refl, true, [], ◌∷◌, ◌==◌, nat_eq}
use native.Mathlib.Decide.{ℕ_discrete}
use brain_mcp.Base.Text.{Text, text, text_eq, Text-discrete}
use brain_mcp.Base.Dict.{lookup, insert, erase}
use brain_mcp.Base.Sets.{discard}
use brain_mcp.Watcher.{
  VaultWatcher, rephase, debounced, fire, deliver, check, report, stop, change, tell, Reach, here,
  then_step, new_watcher,
}
use brain_mcp.Watcher.Covered.{IsCovered, Reach-IsCovered}
use brain_mcp.Watcher.Stopped.{IsSilent, Reach-IsSilent}

abbrev a_note : Text
a_note = text "a.md"

-- The second change cancels the first timer.
abbrev changed : VaultWatcher
changed = debounced a_note (debounced a_note new_watcher)

abbrev reached : Reach new_watcher changed
reached =
    then_step (then_step here (change new_watcher a_note))
      (change (debounced a_note new_watcher) a_note)

Reach-IsCovered_example : IsCovered changed
Reach-IsCovered_example = Reach-IsCovered reached

delivers_once :
    (report 0
      (check 0 (deliver 0 (fire 0 (report 1 (check 1 (deliver 1 (fire 1 changed)))))))).delivered
    ≡ a_note ∷ []
unfolding report check deliver fire debounced rephase lookup insert erase discard ◌==◌ nat_eq
    text_eq Text-discrete ℕ_discrete
delivers_once = refl

-- The watcher is stopped between the test of the event and the call.
abbrev stopped : VaultWatcher
stopped = stop (check 1 (deliver 1 (fire 1 changed)))

is_stopped : stopped.stopped ≡ true
unfolding stop
is_stopped = refl

-- The timer that has passed the test goes on to its end.
abbrev ended : VaultWatcher
ended = report 1 stopped

delivers_late : ended.delivered ≡ a_note ∷ []
unfolding stop report check deliver fire debounced rephase lookup insert erase discard ◌==◌ nat_eq
    text_eq Text-discrete ℕ_discrete
delivers_late = refl

Reach-IsSilent_example : IsSilent stopped ended
Reach-IsSilent_example = Reach-IsSilent (then_step here (tell stopped 1)) is_stopped
