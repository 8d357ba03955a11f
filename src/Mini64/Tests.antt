-- ===== src/Mini64/Tests.antt =====
-- The theorems on mini64/kernel.c at concrete inputs.
use os.Prelude.{
  ℕ, ◌+◌, ◌≤◌, ◌<◌, ◌≡◌, refl, List, [], ◌∷◌, ◌++◌, Option, none, some, Bool, true, false,
  if◌then◌else◌, ◌==◌, arith, length, ◌*◌, ◌%◌, ◌^◌, ltb, Bool-cases, inl, inr, ap,
}
use os.Prelude.Array.{Array, put}
use os.Prelude.CString.{codes}
use os.Ports.{Hardware}
use os.Mini64.Frame.{Video, Canvas, fb_puts, fb_clear}
use os.Mini64.Frame.Inside.{IsVideo, fb_puts_inside}
use os.Mini64.Frame.Below.{fb_puts_below}
use os.Mini64.Print.{pnum, parse_u32}
use os.Mini64.Print.Decimal.{parse_u32-pnum}
use os.Mini64.Line.{History, line_max, hist_add}
use os.Mini64.Line.Keys.{text_length}
use os.Mini64.Line.Read.{readline}
use os.Mini64.Line.Entered.{IsEntered, meanings, readline-IsEntered}
use os.Mini64.Line.Within.{IsEnded, IsWithin, readline-IsWithin}
use os.Mini64.Line.Recall.{hist_add_lem}
use os.Mini64.Disk.{Drive, Reliable, Mini, unmounted, attempt, ◌>>=◌}
use os.Mini64.Disk.Calls.{Returns, Ends}
use os.Mini64.Ata.{Ata, disk_read, disk_write, ata_drive}
use os.Mini64.Ata.Device.{disk_hardware}
use os.Mini64.Ata.Kept.{ata-Reliable}
use os.Mini64.Ata.Pending.{
  read_sector, write_sector, flush_writes, Request, perform_all, perform_all-few, IsCounted,
  perform_all-IsCounted,
}
use os.Mini64.Fat.{fat_get, fat_set, allocate_cluster}
use os.Mini64.Fat.Format.{formatted, fat_init, fat_format, first_table_sector}
use os.Mini64.Fat.Search.{IsLaidOut}
use os.Mini64.Fat.Entries.{name83, slot_named}
use os.Mini64.Fat.Store.{disk_store_large}
use os.Mini64.Fat.View.{data_of}
use os.Mini64.Fat.Stored.{IsStoredFile, disk_store_large-Ends}
use os.Mini64.Erase.{Range, byte_pattern, erase_range}
use os.Mini64.Erase.Erased.{IsErased, erase_range-IsErased}
use os.Mini64.Console.{Screen, cell, puts}
use os.Mini64.Console.Page.{Page, Shows, type_text, puts-Shows}
use os.Mini64.Fat.Table.{entry, fat_get-fat_set}
use os.Mini64.Fat.Allocate.{IsAllocated, allocate_cluster-Ends}
use os.Mini64.Fat.Fresh.{IsFresh, fat_init-fat_format, fat_init-fat_format_lost}

abbrev no_history : History
no_history = record { rows = λ i k. 0; count = 0 }

abbrev blank : Array
blank = λ i. 0xff

-- "abd", left, "c", end, "x", rubbed out.
abbrev typed : List ℕ
typed = codes "abd" ++ (3 ∷ codes "c" ++ (2 ∷ codes "x" ++ (8 ∷ [])))

typed_text :
    meanings line_max typed (record { left = []; right = [] })
    ≡ record { left = codes "dcba"; right = [] }
typed_text = refl

readline-IsEntered_example :
    let (t, h, b) = readline line_max no_history blank blank (typed ++ (10 ∷ [])) in
    IsEntered (meanings line_max typed (record { left = []; right = [] })) t × b ≡ true
readline-IsEntered_example = readline-IsEntered line_max no_history blank blank typed refl

no_history-IsEnded : IsEnded no_history
no_history-IsEnded i = refl

readline-IsWithin_example :
    let (t, h, b) =
      readline line_max no_history blank blank (codes "reb" ++ (9 ∷ 0x1b ∷ 0x1a ∷ 1 ∷ 10 ∷ [])) in
    IsWithin blank t × IsEnded h
readline-IsWithin_example =
    readline-IsWithin no_history blank blank (codes "reb" ++ (9 ∷ 0x1b ∷ 0x1a ∷ 1 ∷ 10 ∷ []))
      no_history-IsEnded

abbrev ls_line : Array
ls_line = put (put (λ i. 0) 0 108) 1 115

abbrev one_line : History
one_line = record { rows = λ i k. if k == 127 then 0 else 97; count = 1 }

abbrev two_lines : History
two_lines = hist_add ls_line one_line

hist_add_lem_example :
    two_lines.count ≡ 2
    × ((i k : ℕ)
        → i + 1 < two_lines.count
        → k < line_max
        → two_lines.rows (i + 1) k ≡ one_line.rows i k)
    × ((k : ℕ)
        → k < 127
        → two_lines.rows 0 k
          ≡ (if ltb k (text_length line_max 0 ls_line) then ls_line k else one_line.rows 0 k))
    × two_lines.rows 0 127 ≡ 0
unfolding os.Prelude.CString.str_eq
hist_add_lem_example = hist_add_lem ls_line one_line refl refl (omega arith)

parse_u32-pnum_example : parse_u32 (pnum 4294967295) ≡ some 4294967295
parse_u32-pnum_example = parse_u32-pnum 4294967295 (omega arith)

-- The primary disk as its ports show it at the start: a table that says that the root directory is in use,
-- and zeros.
abbrev root_used : ℕ → Array
root_used k = if k == 2080 then first_table_sector else λ i. 0

abbrev disk : Drive
disk = ata_drive (disk_hardware root_used)

abbrev disk-Reliable : Reliable disk
disk-Reliable = ata-Reliable root_used

abbrev at_start : Ata
at_start = record { pending_writes = 0; trace = [] }

-- The disk behind a format and before the first.
abbrev formatted_disk : Mini Ata
formatted_disk = record { volume = formatted unmounted; drive = at_start; out = [] }

abbrev new_disk : Mini Ata
new_disk = record { volume = unmounted; drive = at_start; out = [] }

fat_get-fat_set_example : Returns (fat_set disk 5 7 >>= λ x. fat_get disk 5) formatted_disk (λ x t.
    x ≡ (if 5 == 5 then 7 % 2 ^ 28 else entry disk-Reliable formatted_disk 5)
    × t.volume ≡ formatted_disk.volume)
fat_get-fat_set_example =
    fat_get-fat_set disk-Reliable 5 5 7 formatted_disk
      (omega arith, omega arith, omega arith, omega arith)
      (omega arith, omega arith, omega arith, omega arith) (omega arith)

formatted_disk-IsLaidOut : IsLaidOut (formatted unmounted)
formatted_disk-IsLaidOut = record {
  copies = omega arith;
  per = omega arith;
  behind = omega arith;
  before_end = omega arith;
  numbered = omega arith;
  entries = omega arith;
}

allocate_cluster-Ends_example :
    Ends (allocate_cluster disk) formatted_disk (IsAllocated disk-Reliable formatted_disk)
allocate_cluster-Ends_example =
    allocate_cluster-Ends disk-Reliable formatted_disk formatted_disk-IsLaidOut

fat_init-fat_format_example :
    Returns (fat_format disk >>= λ x. fat_init disk) formatted_disk (λ x t. IsFresh disk-Reliable t)
fat_init-fat_format_example = fat_init-fat_format disk-Reliable formatted_disk refl

fat_init-fat_format_lost_example :
    Returns (fat_format disk >>= λ x. attempt (fat_init disk)) new_disk (λ o t. o ≡ none)
fat_init-fat_format_lost_example = fat_init-fat_format_lost disk-Reliable new_disk refl

-- A disk that is always ready with data.
abbrev ready : Hardware
ready t port = 8

abbrev requests : List Request
requests = write_sector 7 blank ∷ read_sector 7 ∷ flush_writes ∷ write_sector 8 blank ∷ []

perform_all-few_example : length (perform_all ready requests at_start).1.trace ≤ 20001052
perform_all-few_example = perform_all-few ready requests at_start

perform_all-done : (perform_all ready requests at_start).0 ≡ some tt
unfolding perform_all os.Mini64.Ata.◌>>=◌ os.Mini64.Ata.disk_write os.Mini64.Ata.disk_select
    os.Mini64.Ata.disk_wait_ready os.Mini64.Ata.ready_from os.Mini64.Ata.disk_wait_data
    os.Mini64.Ata.data_from os.Mini64.Ata.write_words os.Mini64.Ata.flush_some
    os.Mini64.Ata.disk_read os.Mini64.Ata.read_words os.Mini64.Ata.disk_flush
perform_all-done = refl

perform_all-IsCounted_example : IsCounted ready (perform_all ready requests at_start).1
perform_all-IsCounted_example =
    perform_all-IsCounted ready requests at_start (perform_all ready requests at_start).1
      (refl, omega arith) (ap (λ o. (o, (perform_all ready requests at_start).1)) perform_all-done)

formatted_disk-missing :
    slot_named 16 0
      (data_of disk-Reliable (formatted unmounted) formatted_disk-IsLaidOut formatted_disk 2)
      (name83 (codes "BOOTMODE.CFG"))
    ≡ none
unfolding slot_named
formatted_disk-missing = refl

disk_store_large-Ends_example :
    Ends (disk_store_large disk (codes "BOOTMODE.CFG") blank 1000) formatted_disk (
      IsStoredFile disk-Reliable
        (formatted unmounted)
        formatted_disk-IsLaidOut
        (codes "BOOTMODE.CFG")
        blank
        1000
        formatted_disk)
unfolding name83 os.Mini64.Fat.Entries.name_part os.Mini64.Fat.Entries.behind_dot
    os.Mini64.Fat.Entries.extension_part
disk_store_large-Ends_example =
    disk_store_large-Ends disk-Reliable (formatted unmounted) formatted_disk-IsLaidOut
      (codes "BOOTMODE.CFG") blank 1000 formatted_disk (omega arith) (omega arith) refl refl
      formatted_disk-missing (omega arith) (omega arith) (λ i lt. omega arith) refl

-- Sectors 5 to 7 get a byte.
abbrev three_sectors : Range
three_sectors = record { lba = 5; sectors = 3; no_confirm = false; pattern = byte_pattern 0xaa }

erase_range-IsErased_example :
    Ends
      (erase_range disk three_sectors (codes "Erase"))
      formatted_disk
      (IsErased disk-Reliable three_sectors (codes "Erase") formatted_disk)
erase_range-IsErased_example =
    erase_range-IsErased disk-Reliable three_sectors (codes "Erase") formatted_disk (omega arith)

-- The last line of a blank screen, and a page.
abbrev last_line : Screen
last_line = record { cells = λ k. cell 32; row = 24; col = 79 }

abbrev blank_page : Page
blank_page = record { line = λ y x. cell 32; row = 24; col = 79 }

last_line-Shows : Shows last_line blank_page
last_line-Shows = record {
  top = 0;
  low = omega arith;
  placed = refl;
  aligned = refl;
  narrow = omega arith;
  shown = λ y x lt lt'. refl;
  blank = λ y x le. refl;
}

puts-Shows_example : Shows (puts (codes "ab\ncd") last_line) (type_text (codes "ab\ncd") blank_page)
puts-Shows_example = puts-Shows (codes "ab\ncd") last_line blank_page refl last_line-Shows

-- A frame of 640 by 480 pixels, with 30 rows of text.
abbrev small_video : Video
small_video = record {
  base = 0xe0000000;
  pitch = 2560;
  width = 640;
  height = 480;
  cols = 80;
  rows = 30;
}

small_video-IsVideo : IsVideo small_video
small_video-IsVideo = record {
  wide = omega arith;
  tall = omega arith;
  some_row = omega arith;
  no_overflow = omega arith;
}

-- A font in which each character is a full block.
abbrev blocks : Array
blocks = λ k. 255

abbrev canvas_at : ℕ → Canvas
canvas_at r = record { bytes = λ k. 0; row = r; col = 0 }

fb_puts_inside_example :
    (fb_puts blocks small_video (codes "a\nb") (canvas_at 29)).bytes 1228800 ≡ 0
    × (fb_clear small_video (canvas_at 29)).bytes 1228800 ≡ 0
fb_puts_inside_example =
    fb_puts_inside small_video small_video-IsVideo blocks (codes "a\nb") (canvas_at 29) 1228800
      (omega arith)

fb_puts_below_example :
    (fb_puts blocks small_video (codes "abc") (canvas_at 31)).bytes ≡ (canvas_at 31).bytes
fb_puts_below_example =
    fb_puts_below small_video blocks (codes "abc") (canvas_at 31) (omega arith) (omega arith)
