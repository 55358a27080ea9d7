-- ===== src/Watcher/Covered.antt =====
-- `VaultWatcher` of src/obsidian_mcp/storage/watcher.py loses no change.
use brain_mcp.Base.{
  ℕ, suc, ◌≤◌, ◌≡◌, ◌≢◌, refl, ap, sym, subst, ◌∙◌, ◌⊎◌, Bool, true, false, not, ◌&&◌, Bool-cases,
  inl, inr, Option, none, some, [], ◌∷◌, contains, ◌==◌, ==_iff, ==_refl, ==_of_ne, ne_of_==,
  nat_eq, if◌then◌else◌, arith,
}
use brain_mcp.Base.Text.{Text, text_eq}
use brain_mcp.Base.Dict.{Dict, lookup, insert, lookup-insert, lookup-erase}
use brain_mcp.Base.Sets.{contains-discard}
use brain_mcp.Watcher.{
  Phase, waiting, cancelled, fired, unlocked, checked, finished, tested, check, Timer, VaultWatcher,
  cancel, begin, leave, rephased, rephase, cancel_previous, debounced, fire, pop_pending, deliver,
  reported, report_timer, report, stop, cancel_all, stop_timers, Step, change, expire, take, test,
  tell, halt, clear, Reach, here, then_step, new_watcher,
}

abbrev pub is_live : Phase → Bool
is_live cancelled = false
is_live finished = false
is_live _ = true

abbrev on_timer : (Timer → Timer) → Option Timer → Option Timer
on_timer f none = none
on_timer f (some t) = some (f t)

abbrev path_or : Option Timer → Text
path_or none = []
path_or (some t) = t.path

pub lookup-rephase :
    (n m : ℕ) (f : Phase → Phase) (timers : Dict ℕ Timer)
    → lookup m (rephase n f timers) ≡ on_timer (rephased n f m) (lookup m timers)
unfolding lookup rephase
lookup-rephase n m f [] = refl
lookup-rephase n m f ((k, t) ∷ timers) = elim (Bool-cases (k == m)) [
  | inl e ↦ rw e (ap (λ x. some (rephased n f x t)) ((==_iff k m).0 e))
  | inr e ↦ rw e (lookup-rephase n m f timers)
]

-- A timer that will still report its path.
abbrev pub HasTimer : Dict ℕ Timer → Text → Type 0
HasTimer timers path =
    (n : ℕ) × (t : Timer) × (lookup n timers ≡ some t) × (t.path ≡ path) × (is_live t.phase ≡ true)

-- The identities of new timers are new, a pending timer is one of its path, and until the
-- watcher is stopped each path that has changed since it was delivered has a timer that
-- will report it.
pub record IsCovered (w : VaultWatcher) : Type 0 where
  pub fresh : (n : ℕ) → w.next ≤ n → lookup n w.timers ≡ none
  pub owned :
      (path : Text) (n : ℕ)
      → lookup path w.pending ≡ some n
      → (t : Timer) × (lookup n w.timers ≡ some t) × (t.path ≡ path)
  pub covered :
      w.stopped ≡ false → (path : Text) → contains w.dirty path ≡ true → HasTimer w.timers path

module _ (n : ℕ) (f : Phase → Phase) where
  rephase-fresh :
      (m : ℕ) (timers : Dict ℕ Timer)
      → lookup m timers ≡ none
      → lookup m (rephase n f timers) ≡ none
  rephase-fresh m timers h = lookup-rephase n m f timers ∙ ap (on_timer (rephased n f m)) h

  rephase-some :
      (m : ℕ) (timers : Dict ℕ Timer) (t : Timer)
      → lookup m timers ≡ some t
      → lookup m (rephase n f timers) ≡ some (rephased n f m t)
  rephase-some m timers t h = lookup-rephase n m f timers ∙ ap (on_timer (rephased n f m)) h

  -- A change of phase that ends no timer keeps those that will report.
  rephase-HasTimer :
      (timers : Dict ℕ Timer) (path : Text)
      → ((phase : Phase) → is_live phase ≡ true → is_live (f phase) ≡ true)
      → HasTimer timers path
      → HasTimer (rephase n f timers) path
  rephase-HasTimer timers path keeps (m, t, a, b, c) =
      (m, rephased n f m t, rephase-some m timers t a, b, kept (Bool-cases (m == n)))
    where
      kept :
          ((m == n) ≡ true) ⊎ ((m == n) ≡ false)
          → is_live (if m == n then f t.phase else t.phase) ≡ true
      kept (inl e) = rw e (keeps t.phase c)
      kept (inr e) = rw e c

  -- So does one of a timer of another path.
  rephase-other :
      (timers : Dict ℕ Timer) (path : Text) (t : Timer)
      → lookup n timers ≡ some t
      → t.path ≢ path
      → HasTimer timers path
      → HasTimer (rephase n f timers) path
  rephase-other timers path t h d (m, u, a, b, c) =
      (m, rephased n f m u, rephase-some m timers u a, b, kept (Bool-cases (m == n)))
    where
      kept :
          ((m == n) ≡ true) ⊎ ((m == n) ≡ false)
          → is_live (if m == n then f u.phase else u.phase) ≡ true
      kept (inl e) =
          let same = sym h ∙ (ap (λ x. lookup x timers) (sym ((==_iff m n).0 e)) ∙ a) in
          elim (d (ap path_or same ∙ b)) [ ]
      kept (inr e) = rw e c

-- A change of phase of one timer, which leaves it able to report if it was.
rephase-IsCovered :
    (w : VaultWatcher) (n : ℕ) (f : Phase → Phase) (pending : Dict Text ℕ)
    → ((phase : Phase) → is_live phase ≡ true → is_live (f phase) ≡ true)
    → ((path : Text) (m : ℕ) → lookup path pending ≡ some m → lookup path w.pending ≡ some m)
    → IsCovered w
    → IsCovered (record w { pending = pending; timers = rephase n f w.timers })
rephase-IsCovered w n f pending keeps less c = record {
  fresh = λ m h. rephase-fresh n f m w.timers (c.fresh m h);
  owned = λ path m h.
      let (t, a, b) = c.owned path m (less path m h) in
      (rephased n f m t, rephase-some n f m w.timers t a, b);
  covered = λ r path d. rephase-HasTimer n f w.timers path keeps (c.covered r path d);
}

begin-live : (phase : Phase) → is_live phase ≡ true → is_live (begin phase) ≡ true
begin-live waiting h = refl
begin-live _ h = h

leave-live : (phase : Phase) → is_live phase ≡ true → is_live (leave phase) ≡ true
leave-live fired h = refl
leave-live _ h = h

pop_pending-less :
    (found : Option Timer) (pending : Dict Text ℕ) (path : Text) (m : ℕ)
    → lookup path (pop_pending found pending) ≡ some m
    → lookup path pending ≡ some m
pop_pending-less none pending path m h = h
pop_pending-less (some t) pending path m h = by_phase t.phase h
  where
    by_phase :
        (phase : Phase)
        → lookup path (pop_pending (some (record { path = t.path; phase = phase })) pending)
          ≡ some m
        → lookup path pending ≡ some m
    by_phase fired k = ground (arith, lookup-erase t.path path pending, k)
    by_phase _ k = k

fire-IsCovered : (n : ℕ) (w : VaultWatcher) → IsCovered w → IsCovered (fire n w)
unfolding fire
fire-IsCovered n w c = rephase-IsCovered w n begin w.pending begin-live (λ path m h. h) c

deliver-IsCovered : (n : ℕ) (w : VaultWatcher) → IsCovered w → IsCovered (deliver n w)
unfolding deliver
deliver-IsCovered n w c =
    rephase-IsCovered w n leave (pop_pending (lookup n w.timers) w.pending) leave-live
      (pop_pending-less (lookup n w.timers) w.pending) c

stop-IsCovered : (w : VaultWatcher) → IsCovered w → IsCovered (stop w)
unfolding stop
stop-IsCovered w c = record { fresh = c.fresh; owned = c.owned; covered = λ r. cc }

cancel_all-fresh :
    (pending : Dict Text ℕ) (timers : Dict ℕ Timer) (n : ℕ)
    → lookup n timers ≡ none
    → lookup n (cancel_all pending timers) ≡ none
unfolding cancel_all
cancel_all-fresh [] timers n h = h
cancel_all-fresh ((path, m) ∷ pending) timers n h =
    cancel_all-fresh pending (rephase m cancel timers) n (rephase-fresh m cancel n timers h)

stop_timers-IsCovered :
    (w : VaultWatcher) → w.stopped ≡ true → IsCovered w → IsCovered (stop_timers w)
unfolding stop_timers lookup
stop_timers-IsCovered w s c = record {
  fresh = λ n h. cancel_all-fresh w.pending w.timers n (c.fresh n h);
  owned = λ path n h. cc;
  covered = λ r path d. cc;
}

and-split : (b c : Bool) → (not b && c) ≡ true → (b ≡ false) × (c ≡ true)
and-split b c h = ground arith

-- A test of the stop event ends no timer until the watcher is stopped.
tested-live : (phase : Phase) → is_live phase ≡ true → is_live (tested false phase) ≡ true
tested-live unlocked h = refl
tested-live waiting h = h
tested-live cancelled h = h
tested-live fired h = h
tested-live checked h = h
tested-live finished h = h

check-IsCovered : (n : ℕ) (w : VaultWatcher) → IsCovered w → IsCovered (check n w)
unfolding check
check-IsCovered n w c = record {
  fresh = λ m h. rephase-fresh n (tested w.stopped) m w.timers (c.fresh m h);
  owned = λ path m h.
      let (t, a, b) = c.owned path m h in
      (rephased n (tested w.stopped) m t, rephase-some n (tested w.stopped) m w.timers t a, b);
  covered = λ r path d.
      rephase-HasTimer n (tested w.stopped) w.timers path
        (subst (λ b. (phase : Phase) → is_live phase ≡ true → is_live (tested b phase) ≡ true)
          (sym r) tested-live)
        (c.covered r path d);
}

-- A report ends its timer, and its path is clean.
report-IsCovered : (n : ℕ) (w : VaultWatcher) → IsCovered w → IsCovered (report n w)
unfolding report
report-IsCovered n w c = by_timer (lookup n w.timers) refl
  where
    told : (t : Timer) → lookup n w.timers ≡ some t → IsCovered (reported checked n t.path w)
    told t h = record {
      fresh = λ m k. rephase-fresh n (λ _. finished) m w.timers (c.fresh m k);
      owned = λ path m k.
          let (u, a, b) = c.owned path m k in
          (rephased n (λ _. finished) m u, rephase-some n (λ _. finished) m w.timers u a, b);
      covered = λ r path d.
          let (other, dirty) =
            and-split (path == t.path) (contains w.dirty path)
              (sym (contains-discard t.path path w.dirty) ∙ d) in
          rephase-other n (λ _. finished) w.timers path t h
            (λ e. ne_of_== path t.path other (sym e)) (c.covered r path dirty);
    }

    by_phase :
        (t : Timer)
        → lookup n w.timers ≡ some t
        → (phase : Phase) → IsCovered (reported phase n t.path w)
    by_phase t h checked = told t h
    by_phase t h _ = c

    by_timer :
        (found : Option Timer) → lookup n w.timers ≡ found → IsCovered (report_timer n found w)
    by_timer none h = c
    by_timer (some t) h = by_phase t h t.phase

-- The timer that a change replaces is cancelled, whatever the path is.
cancelled-some :
    (previous : Option ℕ) (timers : Dict ℕ Timer) (m : ℕ) (t : Timer)
    → lookup m timers ≡ some t
    → (u : Timer) × (lookup m (cancel_previous previous timers) ≡ some u) × (u.path ≡ t.path)
cancelled-some none timers m t h = (t, h, refl)
cancelled-some (some n) timers m t h =
    (rephased n cancel m t, rephase-some n cancel m timers t h, refl)

cancelled-fresh :
    (previous : Option ℕ) (timers : Dict ℕ Timer) (m : ℕ)
    → lookup m timers ≡ none
    → lookup m (cancel_previous previous timers) ≡ none
cancelled-fresh none timers m h = h
cancelled-fresh (some n) timers m h = rephase-fresh n cancel m timers h

-- A timer of a path that did not change stays.
cancelled-HasTimer :
    (w : VaultWatcher) (path other : Text) (previous : Option ℕ)
    → IsCovered w
    → lookup path w.pending ≡ previous
    → (path == other) ≡ false
    → HasTimer w.timers other
    → HasTimer (cancel_previous previous w.timers) other
cancelled-HasTimer w path other none c h d live = live
cancelled-HasTimer w path other (some n) c h d live =
    let (t, a, b) = c.owned path n h in
    rephase-other n cancel w.timers other t a (λ e. ne_of_== path other d (sym b ∙ e)) live

insert-other :
    (next : ℕ) (new : Timer) (timers : Dict ℕ Timer) (m : ℕ) (t : Timer)
    → lookup next timers ≡ none
    → lookup m timers ≡ some t
    → lookup m (insert next new timers) ≡ some t
insert-other next new timers m t f h =
    lookup-insert next m new timers
    ∙ (elim (Bool-cases (next == m)) [ inl e ↦ cc ((==_iff next m).0 e, f, h) | inr e ↦ rw e h ])

later_ne : (a b : ℕ) → suc a ≤ b → a ≢ b
later_ne a b h = λ e. omega (arith, h, e)

later_le : (a b : ℕ) → suc a ≤ b → a ≤ b
later_le a b h = omega (arith, h)

-- The timer that is pending for the path that changed.
insert-same :
    (path other : Text) (next m : ℕ) (pending : Dict Text ℕ)
    → (path == other) ≡ true
    → lookup other (insert path next pending) ≡ some m
    → next ≡ m
insert-same path other next m pending e h =
    ground (arith, lookup-insert path other next pending, e, h)

debounced-IsCovered : (path : Text) (w : VaultWatcher) → IsCovered w → IsCovered (debounced path w)
unfolding debounced
debounced-IsCovered path w c =
    let before = cancel_previous (lookup path w.pending) w.timers in
    let new : Timer = record { path = path; phase = waiting } in
    let unused =
      cancelled-fresh (lookup path w.pending) w.timers w.next (c.fresh w.next (omega arith)) in
    let mine : lookup w.next (insert w.next new before) ≡ some new =
      lookup-insert w.next w.next new before ∙ (rw (==_refl w.next) refl) in
    record {
      fresh = λ m h.
          lookup-insert w.next m new before
          ∙ (rw (==_of_ne w.next m (later_ne w.next m h)) (
              cancelled-fresh (lookup path w.pending) w.timers m
                (c.fresh m (later_le w.next m h))));
      owned = λ q m h. elim (Bool-cases (path == q)) [
        | inl e ↦ (
          new,
          subst (λ x. lookup x (insert w.next new before) ≡ some new)
              (insert-same path q w.next m w.pending e h) mine,
          (==_iff path q).0 e,
        )
        | inr e ↦
            let (t, a, b) =
              c.owned q m (ground (arith, lookup-insert path q w.next w.pending, h)) in
            let (u, k, l) = cancelled-some (lookup path w.pending) w.timers m t a in
            (u, insert-other w.next new before m u unused k, l ∙ b)
      ];
      covered = λ r q d. elim (Bool-cases (path == q)) [
        | inl e ↦ (w.next, new, mine, (==_iff path q).0 e, refl)
        | inr e ↦
            let (m, t, a, b, live) =
              cancelled-HasTimer w path q (lookup path w.pending) c refl e
                (c.covered r q (ground (arith, ==_iff q path, ==_iff path q, d))) in
            (m, t, insert-other w.next new before m t unused a, b, live)
      ];
    }

Step-IsCovered : {u v : VaultWatcher} → Step u v → IsCovered u → IsCovered v
Step-IsCovered (change w path) c = debounced-IsCovered path w c
Step-IsCovered (expire w n) c = fire-IsCovered n w c
Step-IsCovered (take w n) c = deliver-IsCovered n w c
Step-IsCovered (test w n) c = check-IsCovered n w c
Step-IsCovered (tell w n) c = report-IsCovered n w c
Step-IsCovered (halt w) c = stop-IsCovered w c
Step-IsCovered (clear w s) c = stop_timers-IsCovered w s c

new_watcher-IsCovered : IsCovered new_watcher
unfolding lookup
new_watcher-IsCovered = record {
  fresh = λ n h. refl;
  owned = λ path n h. cc;
  covered = λ r path d. cc;
}

-- Whatever the threads do, in whatever order: until the watcher is stopped, each path that
-- has changed since it was delivered last has a timer that will still deliver it.
pub Reach-IsCovered : {w : VaultWatcher} → Reach new_watcher w → IsCovered w
Reach-IsCovered here = new_watcher-IsCovered
Reach-IsCovered (then_step r s) = Step-IsCovered s (Reach-IsCovered r)
