-- ===== src/Endpoint/Halt.antt =====
-- `dummy_set_halt_and_wedge`, `dummy_set_halt` and `dummy_set_wedge` of patch/kernel/dummy_hcd.c.
use fuzzusb.Base.{ℕ, true, false, not, ◌&&◌, ◌||◌, Option, none, some, if◌then◌else◌, ◌==◌}
use fuzzusb.Usb.{Ret, ret, err, einval, eshutdown, eagain}
use fuzzusb.Dummy.{Dummy}
use fuzzusb.Dummy.Access.{set_ep, is_empty}
use fuzzusb.Endpoint.Enable.{is_some, is_ep0}
use fuzzusb.Endpoint.Queue.{sends}

unfoldable pub set_halt_and_wedge : Option ℕ → ℕ → ℕ → Dummy → Ret × Dummy
set_halt_and_wedge none value wedged d = (err einval, d)
set_halt_and_wedge (some i) value wedged d =
    if not (is_some d.driver)
    then (err eshutdown, d)
    else if value == 0
    then (ret 0, set_ep i (record (d.ep i) { halted = false; wedged = false }) d)
    else if sends (d.ep i).desc && not (is_empty (d.ep i).queue)
    then (err eagain, d)
    else (
      ret 0,
      set_ep i (record (d.ep i) { halted = true; wedged = not (wedged == 0) || (d.ep i).wedged }) d,
    )

unfoldable pub set_halt : Option ℕ → ℕ → Dummy → Ret × Dummy
unfolding set_halt_and_wedge
set_halt ep value d = set_halt_and_wedge ep value 0 d

unfoldable pub set_wedge : Option ℕ → Dummy → Ret × Dummy
unfolding set_halt_and_wedge
set_wedge none d = (err einval, d)
set_wedge (some i) d =
    if is_ep0 (d.ep i) then (err einval, d) else set_halt_and_wedge (some i) 1 1 d
