-- ===== src/Log/Tests.antt =====
-- Runs of the log on concrete calls, and the theorems applied to them.
use os.Prelude.{◌≡◌, refl, List, [], ◌∷◌, some, false, replicate, newest, arith}
use os.Prelude.Int.{pos}
use os.Prelude.CString.{copy_string, copy_from}
use os.Log.{
  Log, max_entries, debug_level, info_level, subsystem_logd, initialized_text, log_read, position,
  message, enter, log_init, log_submit, log_set_level,
}
use os.Log.Ring.{submitted}
use os.Log.History.{Holds, IsAllocated, Call, submit, set_level, run, accepted, log_history}

abbrev zeroed : Log
zeroed = record {
  initialized = false;
  buffer =
      replicate 64 (record { timestamp = 0; level = pos 0; subsystem = []; msg = replicate 56 0 });
  head = 0;
  count = 0;
  current_level = pos 0;
}

abbrev calls : List Call
calls =
    submit 5 (pos 3) (b'f' ∷ []) (b'h' ∷ b'i' ∷ [])
    ∷ set_level (pos 2)
    ∷ submit 6 (pos 1) (b'f' ∷ []) (b'n' ∷ b'o' ∷ [])
    ∷ []

zeroed-IsAllocated : IsAllocated zeroed
zeroed-IsAllocated = omega arith

hi_read :
    log_read (run calls (log_init 1 zeroed)) 1
    ≡ some (record { timestamp = 5; level = pos 3; subsystem = b'f' ∷ []; text = b'h' ∷ b'i' ∷ [] })
unfolding log_read log_init log_submit log_set_level copy_string position message enter copy_from
hi_read = refl

log_history_example : Holds (run calls (log_init 1 zeroed)) (
    newest max_entries
      (submitted 1 info_level subsystem_logd initialized_text ∷ accepted debug_level calls))
log_history_example = log_history 1 calls zeroed-IsAllocated
