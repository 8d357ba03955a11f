-- ===== src/Mini64/Line/Complete.antt =====
-- The completion of commands in `readline` of mini64/kernel.c.
use os.Prelude.{
  ℕ, ◌+◌, ◌-◌, List, [], ◌∷◌, ◌++◌, Bool, not, ◌&&◌, ◌||◌, if◌then◌else◌, ltb, ◌==◌, length, drop,
}
use os.Prelude.Array.{Array, put, shift_up}
use os.Prelude.CString.{codes}
use os.Mini64.Line.{Line, print, backs, tail_from}

abbrev pub cmd_list : List (List ℕ)
cmd_list =
    codes "boot"
    ∷ codes "reboot"
    ∷ codes "halt"
    ∷ codes "install"
    ∷ codes "recover"
    ∷ codes "recover-with-bl"
    ∷ codes "bootmode"
    ∷ codes "status"
    ∷ codes "uname"
    ∷ codes "version"
    ∷ codes "meminfo"
    ∷ codes "modules"
    ∷ codes "diskinfo"
    ∷ codes "chkfs"
    ∷ codes "mount"
    ∷ codes "umount"
    ∷ codes "sync"
    ∷ codes "ls"
    ∷ codes "hexdump"
    ∷ codes "format"
    ∷ codes "history"
    ∷ codes "echo"
    ∷ codes "clear"
    ∷ codes "help"
    ∷ []

-- `for (j = 0; cmd[j] && buf[j] && cmd[j] == buf[j]; j++) {}` from index `j` on, for what is left of the
-- command.
unfoldable pub common : List ℕ → ℕ → Array → ℕ
common [] j buf = j
common (c ∷ cs) j buf =
    let rest = common cs (j + 1) buf in if not (buf j == 0) && (c == buf j) then rest else j

-- `!buf[j] || !cmd[j]`
abbrev pub is_match : Array → List ℕ → Bool
is_match buf cmd = let j = common cmd 0 buf in (buf j == 0) || (j == length cmd)

unfoldable pub matches : Array → List (List ℕ) → List (List ℕ)
matches buf [] = []
matches buf (c ∷ cs) = let rest = matches buf cs in if is_match buf c then c ∷ rest else rest

-- One round of the loop that inserts the rest of a command.
unfoldable pub insert_rest : ℕ → List ℕ → Line → Line
insert_rest max [] s = s
insert_rest max (c ∷ cs) s =
    let t = record s {
      buf = put (shift_up (s.len - s.pos) s.pos s.buf) s.pos c;
      pos = s.pos + 1;
      len = s.len + 1;
    } in
    let rest = insert_rest max cs (print (c ∷ tail_from t.pos t ++ backs (t.len - t.pos)) t) in
    if ltb (s.pos + 1) max then rest else s

-- The lines of the commands that match.
abbrev pub listed : List (List ℕ) → List ℕ
listed [] = []
listed (c ∷ cs) = 32 ∷ 32 ∷ c ++ (10 ∷ listed cs)

-- What follows for the commands that match.
abbrev pub completed : ℕ → List (List ℕ) → Line → Line
completed max [] s = s
completed max (c ∷ []) s = insert_rest max (drop (common c 0 s.buf) c) s
completed max (c ∷ d ∷ ds) s =
    print
      (10 ∷ listed (c ∷ d ∷ ds) ++ (codes "  Mini64> " ++ (tail_from 0 s ++ backs (s.len - s.pos))))
      s

unfoldable pub complete : ℕ → Line → Line
complete max s = completed max (matches s.buf cmd_list) s
