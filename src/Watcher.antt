-- ===== src/Watcher.antt =====
-- The debouncing of `VaultWatcher` in src/obsidian_mcp/storage/watcher.py: a step for each
-- stretch of code that other threads cannot interrupt, those under `_debounce_lock` among
-- them. The debounce time is not 0. Beside the watcher's state, `dirty` is the history: the
-- paths that have changed since they were delivered last.
pub mod Covered
pub mod Stopped
use brain_mcp.Base.{
  ℕ, ◌≡◌, suc, Bool, true, false, not, Option, none, some, List, [], ◌∷◌, ◌==◌, nat_eq,
  if◌then◌else◌,
}
use brain_mcp.Base.Text.{Text, text_eq}
use brain_mcp.Base.Dict.{Dict, lookup, insert, erase}
use brain_mcp.Base.Sets.{discard}

-- A `threading.Timer`: it waits, its function has begun, has left the lock, has found the
-- watcher not stopped, or has returned.
pub data Phase : Type 0 where
  waiting cancelled fired unlocked checked finished : Phase

pub record Timer : Type 0 where
  pub path : Text
  pub phase : Phase

pub record VaultWatcher : Type 0 where
  pub stopped : Bool
  pub pending : Dict Text ℕ
  pub timers : Dict ℕ Timer
  pub next : ℕ
  pub dirty : List Text
  pub delivered : List Text

-- `timer.cancel()` does nothing once the function has begun.
abbrev pub cancel : Phase → Phase
cancel waiting = cancelled
cancel phase = phase

abbrev pub begin : Phase → Phase
begin waiting = fired
begin phase = phase

abbrev pub leave : Phase → Phase
leave fired = unlocked
leave phase = phase

abbrev pub rephased : ℕ → (Phase → Phase) → ℕ → Timer → Timer
rephased n f m t = record { path = t.path; phase = if m == n then f t.phase else t.phase }

unfoldable pub rephase : ℕ → (Phase → Phase) → Dict ℕ Timer → Dict ℕ Timer
rephase n f [] = []
rephase n f ((m, t) ∷ timers) = (m, rephased n f m t) ∷ rephase n f timers

abbrev pub cancel_previous : Option ℕ → Dict ℕ Timer → Dict ℕ Timer
cancel_previous none timers = timers
cancel_previous (some n) timers = rephase n cancel timers

-- `debounced`, when the path has changed.
unfoldable pub debounced : Text → VaultWatcher → VaultWatcher
unfolding rephase
debounced path w = record {
  stopped = w.stopped;
  pending = insert path w.next w.pending;
  timers =
      insert w.next (record { path = path; phase = waiting })
        (cancel_previous (lookup path w.pending) w.timers);
  next = suc w.next;
  dirty = path ∷ w.dirty;
  delivered = w.delivered;
}

-- The time of a timer is over, and its function begins.
unfoldable pub fire : ℕ → VaultWatcher → VaultWatcher
unfolding rephase
fire n w = record w { timers = rephase n begin w.timers }

abbrev pub pop_pending : Option Timer → Dict Text ℕ → Dict Text ℕ
pop_pending none pending = pending
pop_pending (some t) pending = pop_if t.phase t.path pending
  where
    pop_if : Phase → Text → Dict Text ℕ → Dict Text ℕ
    pop_if fired path pending = erase path pending
    pop_if phase path pending = pending

-- `deliver` under the lock: it takes the path out of `_pending`, whichever timer is there.
unfoldable pub deliver : ℕ → VaultWatcher → VaultWatcher
unfolding rephase
deliver n w = record w {
  pending = pop_pending (lookup n w.timers) w.pending;
  timers = rephase n leave w.timers;
}

-- `deliver` after the lock: the test of the stop event,
abbrev pub tested : Bool → Phase → Phase
tested true unlocked = finished
tested false unlocked = checked
tested stopped phase = phase

unfoldable pub check : ℕ → VaultWatcher → VaultWatcher
unfolding rephase
check n w = record w { timers = rephase n (tested w.stopped) w.timers }

abbrev pub reported : Phase → ℕ → Text → VaultWatcher → VaultWatcher
reported checked n path w = record w {
  timers = rephase n (λ _. finished) w.timers;
  dirty = discard path w.dirty;
  delivered = path ∷ w.delivered;
}
reported phase n path w = w

abbrev pub report_timer : ℕ → Option Timer → VaultWatcher → VaultWatcher
report_timer n none w = w
report_timer n (some t) w = reported t.phase n t.path w

-- and the call of `on_change`, which `stop` may come before.
unfoldable pub report : ℕ → VaultWatcher → VaultWatcher
unfolding rephase
report n w = report_timer n (lookup n w.timers) w

-- `stop`: the event first,
unfoldable pub stop : VaultWatcher → VaultWatcher
stop w = record w { stopped = true }

unfoldable pub cancel_all : Dict Text ℕ → Dict ℕ Timer → Dict ℕ Timer
unfolding rephase
cancel_all [] timers = timers
cancel_all ((path, n) ∷ pending) timers = cancel_all pending (rephase n cancel timers)

-- and then, under the lock and after it, the timers, in one step here.
unfoldable pub stop_timers : VaultWatcher → VaultWatcher
unfolding cancel_all
stop_timers w = record w { pending = []; timers = cancel_all w.pending w.timers }

-- What the threads do, in any order. `stop` clears the timers after it has set the event.
pub data Step : VaultWatcher → VaultWatcher → Type 0 where
  change : (w : VaultWatcher) (path : Text) → Step w (debounced path w)
  expire : (w : VaultWatcher) (n : ℕ) → Step w (fire n w)
  take : (w : VaultWatcher) (n : ℕ) → Step w (deliver n w)
  test : (w : VaultWatcher) (n : ℕ) → Step w (check n w)
  tell : (w : VaultWatcher) (n : ℕ) → Step w (report n w)
  halt : (w : VaultWatcher) → Step w (stop w)
  clear : (w : VaultWatcher) → w.stopped ≡ true → Step w (stop_timers w)

pub data Reach (w : VaultWatcher) : VaultWatcher → Type 0 where
  here : Reach w w
  then_step : {u v : VaultWatcher} → Reach w u → Step u v → Reach w v

-- `VaultWatcher.__init__`
abbrev pub new_watcher : VaultWatcher
new_watcher = record {
  stopped = false;
  pending = [];
  timers = [];
  next = 0;
  dirty = [];
  delivered = [];
}
