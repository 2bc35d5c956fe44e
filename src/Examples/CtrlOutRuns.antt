-- ===== src/Examples/CtrlOutRuns.antt =====
-- Three control writes to a device that keeps the bytes, and one to a device that spoils them.
use fuzzusb.Base.{ℕ, suc, ◌≡◌, refl, arith, true, List, [], ◌∷◌, length, map}
use fuzzusb.Usb.{ret, err}
use fuzzusb.Usbtest.CtrlOut.{OutDevice, patterned, agrees, out_rounds, ctrl_out, ebadmsg}
use fuzzusb.Usbtest.CtrlOut.Echo.{Echoes, IsUpTo, ctrl_out-IsUpTo}

abbrev keeping : OutDevice (List ℕ)
keeping = record { write = λ bytes w. (ret (length bytes), bytes); read = λ n w. ((ret n, w), w) }

abbrev keeping_Echoes : Echoes keeping
keeping_Echoes = record { writes = λ bytes w. refl; reads = λ bytes w. refl }

ctrl_out-IsUpTo_example : IsUpTo 8 (ctrl_out keeping true true 3 8 3 [])
ctrl_out-IsUpTo_example =
    ctrl_out-IsUpTo keeping keeping_Echoes true 3 8 3 [] (omega arith) (omega arith) (omega arith)

-- The second round has length 1, the third 4.
ctrl_out_run : ctrl_out keeping true true 3 8 3 [] ≡ (ret 4, 2 ∷ 3 ∷ 4 ∷ 5 ∷ [])
unfolding ctrl_out out_rounds patterned agrees
ctrl_out_run = refl

abbrev spoiling : OutDevice (List ℕ)
spoiling = record keeping { read = λ n w. ((ret n, map suc w), w) }

spoiling_run : (ctrl_out spoiling true true 3 8 3 []).0 ≡ err ebadmsg
unfolding ctrl_out out_rounds patterned agrees
spoiling_run = refl
