-- ===== src/Ps2/Tests.antt =====
-- The driver of kernel/drivers/keyboard/ps2.c with hardware that always has a byte of the mouse.
use os.Prelude.{◌+◌, ◌≤◌, ◌≡◌, refl, ◌==◌, List, [], ◌∷◌, true, if◌then◌else◌}
use os.Prelude.Int.{pos, negsuc}
use os.Ports.{Hardware}
use os.Ps2.{data_port, Ps2}
use os.Ps2.Mouse.{Movement}
use os.Ps2.Protocol.Safe.{
  IsSafe, Call, controller_init, keyboard_initialize, mouse_initialize, mouse_poll, run, zeroed,
  run-IsSafe,
}
use os.Ps2.Controller.{ps2_controller_init, ps2_keyboard_initialize, ps2_mouse_initialize}
use os.Ps2.Bounds.{accesses, starts-IsWithin}
use os.Ps2.Packets.{decode, bytes_read, movements, movements-decode}

-- Every read of the status finds a byte of the mouse, and every byte is the same.
abbrev steady : Hardware
steady t port = if port == data_port then 0x0b else 0x21

abbrev calls : List Call
calls = controller_init ∷ keyboard_initialize ∷ mouse_initialize ∷ mouse_poll ∷ []

run-IsSafe_example : IsSafe (run steady calls zeroed)
run-IsSafe_example = run-IsSafe steady calls

abbrev in_use : Ps2
in_use = record zeroed { controller_ok = true; mouse_ok = true }

movements-decode_example : movements steady 4 in_use ≡ decode (bytes_read steady 4 in_use)
movements-decode_example = movements-decode steady 4 in_use refl refl refl

one_packet :
    movements steady 4 in_use ≡ record { delta_x = pos 11; delta_y = negsuc 10; buttons = 3 } ∷ []
unfolding os.Ps2.Mouse.ps2_mouse_poll os.Ps2.Mouse.take_byte
one_packet = movements-decode_example

starts-IsWithin_example :
    (accesses (ps2_controller_init steady zeroed).0 ≤ accesses zeroed + 700071)
    × (accesses (ps2_keyboard_initialize steady zeroed).0 ≤ accesses zeroed + 2100021)
    × (accesses (ps2_mouse_initialize steady zeroed).0 ≤ accesses zeroed + 3400034)
starts-IsWithin_example = starts-IsWithin steady zeroed
