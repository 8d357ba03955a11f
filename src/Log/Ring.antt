-- ===== src/Log/Ring.antt =====
-- The ring invariant of kernel/drivers/display/log.c, and what one submission does to the entries that
-- `log_read` sees.
use os.Prelude.{
  ℕ, suc, ◌+◌, ◌-◌, ◌≤◌, ◌<◌, ◌≡◌, sym, ap, ◌∙◌, ◌≢◌, List, [], ◌∷◌, none, some, inl, inr,
  Bool-cases, length, get_elem?, take, update, arith, length-update, get_elem?-update_self,
  get_elem?-update_ne, get_elem?-some,
}
use os.Prelude.Int.{ℤ, ltb_ℤ}
use os.Prelude.CString.{c_string, c_string-copy_string, length-copy_string}
use os.Log.{
  Log, LogEntry, Message, max_entries, msg_size, write_entry, enter, log_submit, position, message,
  map_message, log_read,
}

-- Every entry has the whole of its message array.
abbrev pub AllSized : List LogEntry → Type 0
AllSized [] = Unit {0}
AllSized (e ∷ es) = (length e.msg ≡ msg_size) × AllSized es

pub record IsValid (s : Log) : Type 0 where
  pub room : length s.buffer ≡ max_entries
  pub head_in : s.head < max_entries
  pub count_in : s.count ≤ max_entries
  pub filling : s.count < max_entries → s.head ≡ s.count
  pub sized : AllSized s.buffer

AllSized-get_elem? :
    (es : List LogEntry) (i : ℕ) {e : LogEntry}
    → AllSized es
    → get_elem? es i ≡ some e
    → length e.msg ≡ msg_size
AllSized-get_elem? [] i h p = cc
AllSized-get_elem? (x ∷ es) ℕ.zero h p = ground arith
AllSized-get_elem? (x ∷ es) (suc i) h p = AllSized-get_elem? es i h.1 p

AllSized-update :
    (es : List LogEntry) (i now : ℕ) (level : ℤ) (sub msg : List ℕ)
    → AllSized es
    → AllSized (update es i (write_entry now level sub msg))
AllSized-update [] i now level sub msg h = h
AllSized-update (x ∷ es) ℕ.zero now level sub msg h =
    (length-copy_string msg_size msg x.msg ∙ h.0, h.1)
AllSized-update (x ∷ es) (suc i) now level sub msg h =
    (h.0, AllSized-update es i now level sub msg h.1)

pub enter-IsValid :
    (now : ℕ) (level : ℤ) (sub msg : List ℕ) {s : Log}
    → IsValid s
    → IsValid (enter now level sub msg s)
unfolding enter
enter-IsValid now level sub msg {s} v = record {
  room = length-update s.buffer s.head (write_entry now level sub msg) ∙ v.room;
  head_in = omega arith;
  count_in = ground arith;
  filling = ground arith;
  sized = AllSized-update s.buffer s.head now level sub msg v.sized;
}

-- Submitting keeps the invariant.
pub log_submit-IsValid :
    (now : ℕ) (level : ℤ) (sub msg : List ℕ) {s : Log}
    → IsValid s
    → IsValid (log_submit now level sub msg s)
unfolding log_submit
log_submit-IsValid now level sub msg {s} v = elim (Bool-cases (ltb_ℤ level s.current_level)) [
  | inl e ↦ rw e v
  | inr e ↦ rw e (enter-IsValid now level sub msg v)
]

-- What a submission leaves for a reader.
abbrev pub submitted : ℕ → ℤ → List ℕ → List ℕ → Message
submitted now level sub msg = record {
  timestamp = now;
  level = level;
  subsystem = sub;
  text = take (msg_size - 1) (c_string msg);
}

message-write_entry :
    (now : ℕ) (level : ℤ) (sub msg : List ℕ) (e : LogEntry)
    → length e.msg ≡ msg_size
    → message (write_entry now level sub msg e) ≡ submitted now level sub msg
unfolding message
message-write_entry now level sub msg e h = ground (arith, c_string-copy_string 55 msg e.msg)

-- Reading beyond the entries gives nothing.
pub log_read-none : (s : Log) (i : ℕ) → s.count ≤ i → log_read s i ≡ none
unfolding log_read
log_read-none s i h = ground arith

log_read_at :
    (s : Log) (i : ℕ) → i < s.count → log_read s i ≡ map_message (get_elem? s.buffer (position s i))
unfolding log_read
log_read_at s i h = ground arith

position-lt : (s : Log) (i : ℕ) → IsValid s → i < s.count → position s i < length s.buffer
unfolding position
position-lt s i v h = ground arith

-- A valid log has an entry at every index below its count.
pub log_read-some :
    (s : Log) (i : ℕ) → IsValid s → i < s.count → (m : Message) × (log_read s i ≡ some m)
log_read-some s i v h =
    let found = get_elem?-some s.buffer (position s i) (position-lt s i v h) in
    (message found.0, log_read_at s i h ∙ ap map_message found.1)

module _ (now : ℕ) (level : ℤ) (sub msg : List ℕ) {s : Log} (v : IsValid s) where
  position_last :
      let t = enter now level sub msg s in
      (position t (t.count - 1) ≡ s.head) × (t.count - 1 < t.count)
  unfolding enter position
  position_last = ground arith

  position_others :
      (i : ℕ)
      → let t = enter now level sub msg s in
        i + 1 < t.count
        → (position t i ≡ position s (i + (s.count + 1 - t.count)))
          × (s.head ≢ position t i)
          × (i + (s.count + 1 - t.count) < s.count)
  unfolding enter position
  position_others i h = ground arith

  -- The newest entry is the submitted one.
  pub enter_last :
      let t = enter now level sub msg s in
      log_read t (t.count - 1) ≡ some (submitted now level sub msg)
  unfolding enter
  enter_last =
      let t = enter now level sub msg s in
      let w = write_entry now level sub msg in
      let p = position_last in
      let found = get_elem?-some s.buffer s.head (omega arith) in
      let written = get_elem?-update_self s.buffer s.head w found.1 in
      let sized = AllSized-get_elem? s.buffer s.head v.sized found.1 in
      log_read_at t (t.count - 1) p.1
      ∙ ap (λ k. map_message (get_elem? t.buffer k)) p.0
      ∙ ap map_message written
      ∙ ap some (message-write_entry now level sub msg found.0 sized)

  -- The others keep their order; a full log has lost its oldest.
  pub enter_others :
      (i : ℕ)
      → let t = enter now level sub msg s in
        i + 1 < t.count → log_read t i ≡ log_read s (i + (s.count + 1 - t.count))
  unfolding enter
  enter_others i h =
      let t = enter now level sub msg s in
      let p = position_others i h in
      log_read_at t i (omega arith)
      ∙ ap map_message
          (get_elem?-update_ne s.buffer s.head (position t i) (write_entry now level sub msg) p.1)
      ∙ ap (λ k. map_message (get_elem? s.buffer k)) p.0
      ∙ sym (log_read_at s (i + (s.count + 1 - t.count)) p.2)
