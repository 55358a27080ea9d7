-- ===== src/Watcher/Stopped.antt =====
-- `VaultWatcher.stop` of src/obsidian_mcp/storage/watcher.py: the end of the deliveries.
use brain_mcp.Base.{
  ℕ, ◌≡◌, refl, ap, sym, subst, ◌∙◌, inl, inr, Bool, true, false, Bool-cases, Option, none, some,
  List, [], ◌∷◌, ◌++◌, All, append_assoc, ◌==◌, nat_eq, if◌then◌else◌,
}
use mathlib.Core.Option.{some-injective}
use brain_mcp.Base.Text.{Text, text_eq}
use brain_mcp.Base.Dict.{Dict, lookup, insert, lookup-insert}
use brain_mcp.Watcher.{
  Phase, waiting, cancelled, fired, unlocked, checked, finished, Timer, VaultWatcher, cancel, begin,
  leave, tested, rephased, rephase, cancel_previous, debounced, fire, deliver, check, reported,
  report_timer, report, stop, cancel_all, stop_timers, Step, change, expire, take, test, tell, halt,
  clear, Reach, here, then_step,
}
use brain_mcp.Watcher.Covered.{lookup-rephase}

-- A timer whose function has passed the test of the stop event, and has not called yet.
abbrev pub HasPassed : Dict ℕ Timer → ℕ → Text → Type 0
HasPassed timers n path =
    (t : Timer) × (lookup n timers ≡ some t) × (t.path ≡ path) × (t.phase ≡ checked)

-- The paths that are delivered after the first list are those of timers that had passed.
abbrev pub AreLate : Dict ℕ Timer → List Text → List Text → Type 0
AreLate timers before after =
    (late : List Text) × (after ≡ late ++ before)
    × All (λ path. (n : ℕ) × HasPassed timers n path) late

-- No timer passes between two maps of timers.
abbrev NonePass : Dict ℕ Timer → Dict ℕ Timer → Type 0
NonePass timers later = (n : ℕ) (path : Text) → HasPassed later n path → HasPassed timers n path

-- A change of phase that lets no timer pass.
abbrev Blocks : (Phase → Phase) → Type 0
Blocks f = (phase : Phase) → f phase ≡ checked → phase ≡ checked

if-checked :
    (f : Phase → Phase) (phase : Phase) (b : Bool)
    → Blocks f
    → (if b then f phase else phase) ≡ checked
    → phase ≡ checked
if-checked f phase true blocks h = blocks phase h
if-checked f phase false blocks h = h

rephase-NonePass :
    (n : ℕ) (f : Phase → Phase) (timers : Dict ℕ Timer)
    → Blocks f
    → NonePass timers (rephase n f timers)
rephase-NonePass n f timers blocks m path (t, h, same, passed) =
    by_timer (lookup m timers) refl (sym (lookup-rephase n m f timers) ∙ h)
  where
    by_timer :
        (found : Option Timer)
        → lookup m timers ≡ found
        → elim found [ none ↦ none | some u ↦ some (rephased n f m u) ] ≡ some t
        → HasPassed timers m path
    by_timer none l k = cc
    by_timer (some u) l k =
        let at : rephased n f m u ≡ t = some-injective _ t k in
        (
          u,
          l,
          ap (λ (x : Timer). x.path) at ∙ same,
          if-checked f u.phase (m == n) blocks (ap (λ (x : Timer). x.phase) at ∙ passed),
        )

insert-NonePass :
    (n : ℕ) (path : Text) (timers : Dict ℕ Timer)
    → NonePass timers (insert n (record { path = path; phase = waiting }) timers)
insert-NonePass n path timers m other (t, h, same, passed) = elim (Bool-cases (n == m)) [
  | inl e ↦
      let at =
        some-injective _ t (
          rw e at (sym (lookup-insert n m (record { path = path; phase = waiting }) timers) ∙ h)) in
      cc (ap (λ (x : Timer). x.phase) at, passed)
  | inr e ↦ (
    t,
    rw e at (sym (lookup-insert n m (record { path = path; phase = waiting }) timers) ∙ h),
    same,
    passed,
  )
]

cancel-Blocks : Blocks cancel
cancel-Blocks waiting h = cc
cancel-Blocks checked h = h
cancel-Blocks _ h = h

begin-Blocks : Blocks begin
begin-Blocks waiting h = cc
begin-Blocks _ h = h

leave-Blocks : Blocks leave
leave-Blocks fired h = cc
leave-Blocks _ h = h

tested-Blocks : Blocks (tested true)
tested-Blocks unlocked h = cc
tested-Blocks waiting h = h
tested-Blocks cancelled h = h
tested-Blocks fired h = h
tested-Blocks checked h = h
tested-Blocks finished h = h

cancel_previous-NonePass :
    (previous : Option ℕ) (timers : Dict ℕ Timer)
    → NonePass timers (cancel_previous previous timers)
cancel_previous-NonePass none timers n path h = h
cancel_previous-NonePass (some k) timers n path h =
    rephase-NonePass k cancel timers cancel-Blocks n path h

cancel_all-NonePass :
    (pending : Dict Text ℕ) (timers : Dict ℕ Timer) → NonePass timers (cancel_all pending timers)
unfolding cancel_all
cancel_all-NonePass [] timers n path h = h
cancel_all-NonePass ((p, k) ∷ pending) timers n path h =
    rephase-NonePass k cancel timers cancel-Blocks n path
      (cancel_all-NonePass pending (rephase k cancel timers) n path h)

-- What a step of a stopped watcher keeps.
abbrev IsHalted : VaultWatcher → VaultWatcher → Type 0
IsHalted u v =
    (v.stopped ≡ true) × NonePass u.timers v.timers × AreLate u.timers u.delivered v.delivered

report-IsHalted : (n : ℕ) (w : VaultWatcher) → w.stopped ≡ true → IsHalted w (report n w)
unfolding report
report-IsHalted n w s = by_timer (lookup n w.timers) refl
  where
    by_phase :
        (t : Timer)
        → lookup n w.timers ≡ some t
        → (phase : Phase) → t.phase ≡ phase
        → IsHalted w (reported phase n t.path w)
    by_phase t h checked p = (
      s,
      rephase-NonePass n (λ _. finished) w.timers (λ _. cc),
      (t.path ∷ [], refl, ((n, (t, h, refl, p)), tt)),
    )
    by_phase t h _ p = (s, (λ m path k. k), ([], refl, tt))

    by_timer :
        (found : Option Timer) → lookup n w.timers ≡ found → IsHalted w (report_timer n found w)
    by_timer none h = (s, (λ m path k. k), ([], refl, tt))
    by_timer (some t) h = by_phase t h t.phase refl

Step-IsHalted : {u v : VaultWatcher} → Step u v → u.stopped ≡ true → IsHalted u v
unfolding debounced fire deliver check stop stop_timers
Step-IsHalted (change w path) s = (
  s,
  (λ n other h.
      cancel_previous-NonePass (lookup path w.pending) w.timers n other
        (insert-NonePass w.next path (cancel_previous (lookup path w.pending) w.timers) n other h)),
  ([], refl, tt),
)
Step-IsHalted (expire w n) s = (s, rephase-NonePass n begin w.timers begin-Blocks, ([], refl, tt))
Step-IsHalted (take w n) s = (s, rephase-NonePass n leave w.timers leave-Blocks, ([], refl, tt))
Step-IsHalted (test w n) s = (
  s,
  rephase-NonePass n (tested w.stopped) w.timers
      (subst (λ b. Blocks (tested b)) (sym s) tested-Blocks),
  ([], refl, tt),
)
Step-IsHalted (tell w n) s = report-IsHalted n w s
Step-IsHalted (halt w) s = (refl, (λ n path h. h), ([], refl, tt))
Step-IsHalted (clear w _) s = (s, cancel_all-NonePass w.pending w.timers, ([], refl, tt))

All-NonePass :
    (timers later : Dict ℕ Timer) (late : List Text)
    → NonePass timers later
    → All (λ path. (n : ℕ) × HasPassed later n path) late
    → All (λ path. (n : ℕ) × HasPassed timers n path) late
All-NonePass timers later [] none_pass a = tt
All-NonePass timers later (path ∷ late) none_pass ((n, h), a) =
    ((n, none_pass n path h), All-NonePass timers later late none_pass a)

All-append :
    (timers : Dict ℕ Timer) (late before : List Text)
    → All (λ path. (n : ℕ) × HasPassed timers n path) late
    → All (λ path. (n : ℕ) × HasPassed timers n path) before
    → All (λ path. (n : ℕ) × HasPassed timers n path) (late ++ before)
All-append timers [] before a b = b
All-append timers (path ∷ late) before (h, a) b = (h, All-append timers late before a b)

Reach-IsHalted : {u v : VaultWatcher} → Reach u v → u.stopped ≡ true → IsHalted u v
Reach-IsHalted here s = (s, (λ n path h. h), ([], refl, tt))
Reach-IsHalted {u} (then_step {u = m} r step) s =
    let (stopped, none_pass, (late, same, passed)) = Reach-IsHalted r s in
    let (still, later, (more, again, then_passed)) = Step-IsHalted step stopped in
    (
      still,
      (λ n path h. none_pass n path (later n path h)),
      (
        more ++ late,
        again ∙ (ap (λ x. more ++ x) same ∙ sym (append_assoc more late u.delivered)),
        All-append u.timers more late (All-NonePass u.timers m.timers more none_pass then_passed)
            passed,
      ),
    )

-- A watcher that is stopped stays so: no timer passes the test of the stop event any more,
-- and all that is delivered is of timers that had passed it before the stop.
abbrev pub IsSilent : VaultWatcher → VaultWatcher → Type 0
IsSilent u v =
    (v.stopped ≡ true)
    × ((n : ℕ) (path : Text) → HasPassed v.timers n path → HasPassed u.timers n path)
    × AreLate u.timers u.delivered v.delivered

pub Reach-IsSilent : {u v : VaultWatcher} → Reach u v → u.stopped ≡ true → IsSilent u v
Reach-IsSilent r s = Reach-IsHalted r s
