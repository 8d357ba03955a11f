-- ===== src/Log/History.antt =====
-- The log of kernel/drivers/display/log.c as the list of the messages that a reader sees, over any
-- sequence of calls.
use os.Prelude.{
  ℕ, ◌+◌, ◌-◌, ◌≡◌, refl, sym, ap, ◌∙◌, List, [], ◌∷◌, ◌++◌, true, false, inl, inr, if◌then◌else◌,
  Bool-cases, length, get_elem?, newest, arith, length-append, length-drop, get_elem?-drop,
  get_elem?-append_last, get_elem?-append_left, get_elem?-none, newest-append, newest_few,
}
use mathlib.Core.List.{append_assoc, append-nil}
use native.Mathlib.Decide.{dec_lt}
use os.Prelude.Int.{ℤ, ltb_ℤ}
use os.Log.{
  Log, Message, max_entries, debug_level, info_level, subsystem_logd, initialized_text, enter,
  log_submit, log_read, position, log_set_level, log_init,
}
use os.Log.Ring.{
  IsValid, AllSized, submitted, enter-IsValid, log_read-none, enter_last, enter_others,
}

-- `xs` are the messages of the log, oldest first: at every index `log_read` gives what `xs` has.
pub record Holds (s : Log) (xs : List Message) : Type 0 where
  pub size : length xs ≡ s.count
  pub each : (i : ℕ) → log_read s i ≡ get_elem? xs i

module _ (now : ℕ) (level : ℤ) (sub msg : List ℕ) {s : Log} (v : IsValid s) {xs : List Message}
    (h : Holds s xs) where
  abbrev after : List Message
  after = newest max_entries (xs ++ (submitted now level sub msg ∷ []))

  enter_count :
      let t = enter now level sub msg s in
      (t.count + (length xs + 1 - max_entries) ≡ length xs + 1)
      × (s.count + 1 - t.count ≡ length xs + 1 - max_entries)
  unfolding enter
  enter_count = ground (arith, h.size)

  length-after : length after ≡ (enter now level sub msg s).count
  length-after = omega (
    arith,
    length-append xs (submitted now level sub msg ∷ []),
    length-drop (length (xs ++ (submitted now level sub msg ∷ [])) - max_entries)
        (xs ++ (submitted now level sub msg ∷ [])),
    enter_count,
  )

  after_at :
      (i : ℕ)
      → get_elem? after i
        ≡ get_elem? (xs ++ (submitted now level sub msg ∷ [])) (length xs + 1 - max_entries + i)
  after_at i =
      get_elem?-drop (length (xs ++ (submitted now level sub msg ∷ [])) - max_entries)
        (xs ++ (submitted now level sub msg ∷ [])) i
      ∙ ap (λ n. get_elem? (xs ++ (submitted now level sub msg ∷ [])) (n - max_entries + i))
          (length-append xs (submitted now level sub msg ∷ []))

  enter_each : (i : ℕ) → log_read (enter now level sub msg s) i ≡ get_elem? after i
  enter_each i =
      let t = enter now level sub msg s in
      let k = length xs + 1 - max_entries in
      elim (dec_lt (i + 1) t.count) [
        | yes old ↦
            enter_others now level sub msg v i old
            ∙ h.each (i + (s.count + 1 - t.count))
            ∙ ap (get_elem? xs) (omega (arith, enter_count))
            ∙ sym (
                get_elem?-append_left xs (submitted now level sub msg ∷ []) (k + i)
                  (omega (arith, enter_count)))
            ∙ sym (after_at i)
        | no other ↦ elim (dec_lt i t.count) [
          | yes last ↦
              ap (log_read t) (omega arith)
              ∙ enter_last now level sub msg v
              ∙ sym (get_elem?-append_last xs (submitted now level sub msg))
              ∙ ap (get_elem? (xs ++ (submitted now level sub msg ∷ [])))
                  (omega (arith, enter_count))
              ∙ sym (after_at i)
          | no beyond ↦
              log_read-none t i (omega arith)
              ∙ sym (get_elem?-none after i (omega (arith, length-after)))
        ]
      ]

  enter-Holds : Holds (enter now level sub msg s) after
  enter-Holds = record { size = length-after; each = enter_each }

-- A call that changes the log.
pub data Call : Type 0 where
  submit : ℕ → ℤ → List ℕ → List ℕ → Call
  set_level : ℤ → Call

abbrev pub call : Call → Log → Log
call (submit now level sub msg) s = log_submit now level sub msg s
call (set_level level) s = log_set_level level s

abbrev pub run : List Call → Log → Log
run [] s = s
run (c ∷ cs) s = run cs (call c s)

-- The messages that the calls submit, without those below the level set at that time.
abbrev pub accepted : ℤ → List Call → List Message
accepted least [] = []
accepted least (submit now level sub msg ∷ cs) =
    if ltb_ℤ level least then accepted least cs else submitted now level sub msg ∷ accepted least cs
accepted least (set_level level ∷ cs) = accepted level cs

log_set_level-IsValid : (level : ℤ) {s : Log} → IsValid s → IsValid (log_set_level level s)
unfolding log_set_level
log_set_level-IsValid level v = record {
  room = v.room;
  head_in = v.head_in;
  count_in = v.count_in;
  filling = v.filling;
  sized = v.sized;
}

log_set_level-Holds :
    (level : ℤ) {s : Log} {xs : List Message} → Holds s xs → Holds (log_set_level level s) xs
unfolding log_set_level log_read position
log_set_level-Holds level h = record { size = h.size; each = h.each }

log_submit_low :
    (now : ℕ) (level : ℤ) (sub msg : List ℕ) (s : Log)
    → ltb_ℤ level s.current_level ≡ true
    → log_submit now level sub msg s ≡ s
unfolding log_submit
log_submit_low now level sub msg s low = rw low

log_submit_high :
    (now : ℕ) (level : ℤ) (sub msg : List ℕ) (s : Log)
    → ltb_ℤ level s.current_level ≡ false
    → log_submit now level sub msg s ≡ enter now level sub msg s
unfolding log_submit
log_submit_high now level sub msg s high = rw high

level-enter :
    (now : ℕ) (level : ℤ) (sub msg : List ℕ) (s : Log)
    → (enter now level sub msg s).current_level ≡ s.current_level
unfolding enter
level-enter now level sub msg s = refl

level-log_set_level : (level : ℤ) (s : Log) → (log_set_level level s).current_level ≡ level
unfolding log_set_level
level-log_set_level level s = refl

-- After any calls the log holds the newest 64 of what it held and of what the calls have submitted.
pub run-Holds :
    (cs : List Call) {s : Log} {xs : List Message}
    → IsValid s
    → Holds s xs
    → Holds (run cs s) (newest max_entries (xs ++ accepted s.current_level cs))
unfolding enter log_set_level
run-Holds [] {s} {xs} v h =
    rw (append-nil, newest_few max_entries xs (omega (arith, h.size, v.count_in))) h
run-Holds (set_level level ∷ cs) {s} v h =
    rw (← level-log_set_level level s)
      (run-Holds cs (log_set_level-IsValid level v) (log_set_level-Holds level h))
run-Holds (submit now level sub msg ∷ cs) {s} {xs} v h =
    elim (Bool-cases (ltb_ℤ level s.current_level)) [
      | inl low ↦ rw (low, log_submit_low now level sub msg s low) (run-Holds cs v h)
      | inr high ↦
          let rest =
            run-Holds cs (enter-IsValid now level sub msg v) (enter-Holds now level sub msg v h) in
          let m = submitted now level sub msg in
          rw (high, log_submit_high now level sub msg s high)
            (rw
              (
                level-enter now level sub msg s,
                newest-append max_entries (xs ++ (m ∷ [])) (accepted s.current_level cs),
                append_assoc xs (m ∷ []) (accepted s.current_level cs),
              )
              at rest)
    ]

-- The static buffer before the first start: the 64 entries, each with its array.
pub record IsAllocated (s : Log) : Type 0 where
  pub room : length s.buffer ≡ max_entries
  pub sized : AllSized s.buffer

abbrev cleared : Log → Log
cleared s = record s { initialized = true; head = 0; count = 0; current_level = debug_level }

cleared-IsValid : {s : Log} → IsAllocated s → IsValid (cleared s)
cleared-IsValid a = record {
  room = a.room;
  head_in = omega arith;
  count_in = omega arith;
  filling = λ h. refl;
  sized = a.sized;
}

cleared-Holds : (s : Log) → Holds (cleared s) []
cleared-Holds s = record { size = refl; each = λ i. log_read-none (cleared s) i (omega arith) }

-- After `log_init` and any submissions and changes of the level, `log_read` gives at index i the i-th
-- of the newest 64 messages, oldest first: the message of `log_init` and then each submitted message
-- whose level was not below the level set at that time, with its text cut to 55 bytes. At an index
-- beyond those it gives nothing, and `count` is their number.
pub log_history :
    (now : ℕ) (cs : List Call) {s : Log}
    → IsAllocated s
    → Holds (run cs (log_init now s)) (
        newest max_entries
          (submitted now info_level subsystem_logd initialized_text ∷ accepted debug_level cs))
unfolding log_init
log_history now cs {s} a =
    run-Holds (submit now info_level subsystem_logd initialized_text ∷ cs) (cleared-IsValid a)
      (cleared-Holds s)
