-- ===== src/Runtime/Task.antt =====
-- Tasks with a given length, `mark_task_start`, `mark_task_end` and `unmark_task`, and the file of
-- their lengths, of lib/runtime/record-runtime.cpp. The clock's readings are arguments. A length is
-- kept as a pointer, so that 0 is `NULL`, a task that is not in the table.
use min_smt.Prelude.{
  ℕ, ◌+◌, ◌-◌, ◌/◌, ◌%◌, ◌<◌, ◌≤◌, ◌≡◌, ◌≢◌, ◌⊎◌, inl, inr, refl, Bool, true, false, not, ◌&&◌,
  ◌||◌, Option, none, some, List, [], ◌∷◌, ltb, ◌==◌, if◌then◌else◌, arith, update, has, length,
  Result, ok, err, exited, bad_pointer, assertion, div_by_zero, out_of_fuel, assert, ◌>>=◌, ◌>>◌,
}
use min_smt.Prelude.Int.{ℤ, pos, negsuc, ◌+ℤ◌, ◌-ℤ◌, scale, to_u64}
use min_smt.Sched.{uint_mod}
use min_smt.Runtime.State.{Timespec}
use min_smt.Runtime.Time.{time_diff}

-- The division of C, which rounds to 0.
abbrev pub quot : ℤ → ℕ → ℤ
quot (pos n) d = pos (n / d)
quot (negsuc n) d = pos 0 -ℤ pos ((n + 1) / d)

-- `timespec_to_usec`, an `unsigned`.
unfoldable pub timespec_to_usec : Timespec → ℕ
unfolding ◌+ℤ◌ scale to_u64
timespec_to_usec t = to_u64 (scale 1000000 t.tv_sec +ℤ quot t.tv_nsec 1000) % uint_mod

-- The variables `this_task` and `task_start_time` of a thread.
pub record Task : Type 0 where
  pub this_task : ℕ
  pub start_time : Timespec

-- `options::log_task_time` and `options::enforce_delays`.
pub record TaskOptions : Type 0 where
  pub log_task_time : ℕ
  pub enforce_delays : Bool

-- What the end of a task has done: the task was another one, the time was logged, the thread waits
-- actively for so many microseconds, it was too slow, or nothing.
pub data TaskEnd : Type 0 where
  mismatched too_slow silent : TaskEnd
  logged : ℕ → TaskEnd
  delayed : ℕ → TaskEnd

-- `MAX_TIME_K`.
abbrev pub max_time_k : ℕ
max_time_k = 50

unfoldable pub mark_task_start : (task_id : ℕ) → (now : Timespec) → Task → Task
mark_task_start task now t = record { this_task = task; start_time = now }

-- The part of `mark_task_end` that compares the task's time with its length.
unfoldable pub settle_time : TaskOptions → (max_time elapsed : ℕ) → Result TaskEnd
settle_time o max_time elapsed =
    if o.log_task_time == 1
    then ok (logged elapsed)
    else if not (o.log_task_time == 2 || o.enforce_delays)
    then ok silent
    else if o.log_task_time == 2 && max_time == 0
    then ok (logged elapsed)
    else if not o.enforce_delays
    then ok silent
    else if max_time == 0
    then err exited
    else if not (ltb max_time_k max_time)
    then ok silent
    else if ltb elapsed max_time
    then ok (delayed (max_time - elapsed))
    else ok too_slow

unfoldable pub mark_task_end :
    (ndebug : Bool)
    → TaskOptions
    → (table : ℕ → ℕ) → (task_id : ℕ) → (now : Timespec) → Task
    → Result (TaskEnd × Task)
mark_task_end nd o table task now t = do
  assert nd (t.this_task == task)
  let over = record t { this_task = 0 }
  if not (task == t.this_task) then ok (mismatched, over) else (do
    e ← settle_time o (table task) (timespec_to_usec (time_diff t.start_time now))
    ok (e, over))

unfoldable pub unmark_task : (ndebug : Bool) → (task_id : ℕ) → Task → Result Task
unmark_task nd task t = do assert nd (t.this_task == task); ok (record t { this_task = 0 })

-- `read_delay_file`: the table and its size, for a file of lines of two numbers; `none` is a file that
-- cannot be opened. A later line for the same task replaces an earlier one.
abbrev pub load_delays : List (ℕ × ℕ) → (keys : List ℕ) → (ℕ → ℕ) → (ℕ → ℕ) × ℕ
load_delays [] keys table = (table, length keys)
load_delays ((task, max_time) ∷ r) keys table =
    load_delays r (if has task keys then keys else task ∷ keys) (update table task max_time)

unfoldable pub read_delay_file : Option (List (ℕ × ℕ)) → (ℕ → ℕ) × ℕ
read_delay_file none = (λ _. 0, 0)
read_delay_file (some entries) = load_delays entries [] (λ _. 0)

-- The part of `InstallRuntime` that turns the delays off when there are none.
unfoldable pub install_delays : (enforce_delays : Bool) → Option (List (ℕ × ℕ)) → Bool × (ℕ → ℕ)
unfolding read_delay_file
install_delays false file = (false, λ _. 0)
install_delays true file = let (table, size) = read_delay_file file in (not (size == 0), table)

-- What the end of a task with the length `m` may be, once the task has run for `x` microseconds.
abbrev pub Settled : TaskOptions → (m x : ℕ) → TaskEnd → Type 0
Settled o m x (delayed w) = (o.enforce_delays ≡ true) × (max_time_k < m) × (0 < w) × (x + w ≡ m)
Settled o m x too_slow = (o.enforce_delays ≡ true) × (max_time_k < m) × (m ≤ x)
Settled o m x (logged n) = ((o.log_task_time ≡ 1) ⊎ ((o.log_task_time ≡ 2) × (m ≡ 0))) × (n ≡ x)
Settled o m x silent = (o.log_task_time ≢ 1) × ((o.enforce_delays ≡ false) ⊎ (m ≤ max_time_k))
Settled o m x mismatched = ⊥

-- How a call for a task that began at `start` may end.
abbrev pub TaskOver :
    TaskOptions → (m x : ℕ) → (start : Timespec) → Result (TaskEnd × Task) → Type 0
TaskOver o m x start (ok (e, t)) =
    Settled o m x e × (t ≡ record { this_task = 0; start_time = start })
TaskOver o m x start (err exited) = (o.enforce_delays ≡ true) × (m ≡ 0)
TaskOver o m x start (err _) = ⊥

abbrev Over : TaskOptions → (m x : ℕ) → Result TaskEnd → Type 0
Over o m x (ok e) = Settled o m x e
Over o m x (err exited) = (o.enforce_delays ≡ true) × (m ≡ 0)
Over o m x (err _) = ⊥

pick :
    (P : Result TaskEnd → Type 0) (b : Bool) (r q : Result TaskEnd)
    → (b ≡ true → P r)
    → (b ≡ false → P q)
    → P (if b then r else q)
pick P true r q f g = f refl
pick P false r q f g = g refl

settle_time-Over : (o : TaskOptions) (m x : ℕ) → Over o m x (settle_time o m x)
unfolding settle_time
settle_time-Over o m x =
    pick (Over o m x) (o.log_task_time == 1) _ _ (λ a. (inl (ground (arith, a)), refl))
      λ a.
        pick (Over o m x) (not (o.log_task_time == 2 || o.enforce_delays)) _ _
          (λ b. (ground (arith, a), inl (ground (arith, b))))
          λ b.
            pick (Over o m x) (o.log_task_time == 2 && m == 0) _ _
              (λ c. (inr (ground (arith, c), ground (arith, c)), refl))
              λ c.
                pick (Over o m x) (not o.enforce_delays) _ _
                  (λ d. (ground (arith, a), inl (ground (arith, d))))
                  λ d.
                    pick (Over o m x) (m == 0) _ _ (λ e. (ground (arith, d), ground (arith, e)))
                      λ e.
                        pick (Over o m x) (not (ltb max_time_k m)) _ _
                          (λ f. (ground (arith, a), inr (ground (arith, f))))
                          λ f.
                            pick (Over o m x) (ltb x m) _ _
                              (λ g. (
                                ground (arith, d),
                                ground (arith, f),
                                ground (arith, g),
                                ground (arith, g),
                              ))
                              λ g. (ground (arith, d), ground (arith, f), ground (arith, g))

Over-TaskOver :
    (o : TaskOptions) (m x : ℕ) (start : Timespec) (r : Result TaskEnd)
    → Over o m x r
    → TaskOver o m x start (r >>= λ e. ok (e, record { this_task = 0; start_time = start }))
Over-TaskOver o m x start (ok e) h = (h, refl)
Over-TaskOver o m x start (err exited) h = h
Over-TaskOver o m x start (err bad_pointer) h = h
Over-TaskOver o m x start (err assertion) h = h
Over-TaskOver o m x start (err div_by_zero) h = h
Over-TaskOver o m x start (err out_of_fuel) h = h

pub mark_task_end-pads :
    (nd : Bool) (o : TaskOptions) (table : ℕ → ℕ) (task : ℕ) (start now : Timespec) (t : Task)
    → TaskOver o
        (table task)
        (timespec_to_usec (time_diff start now))
        start
        (mark_task_end nd o table task now (mark_task_start task start t))
unfolding mark_task_end mark_task_start
mark_task_end-pads nd o table task start now t =
    let same : assert nd (task == task) ≡ ok tt = ground arith in
    let ours : (task == task) ≡ true = ground arith in
    let x = timespec_to_usec (time_diff start now) in
    rw (same, ours)
      (Over-TaskOver o (table task) x start (settle_time o (table task) x)
        (settle_time-Over o (table task) x))
