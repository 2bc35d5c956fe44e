-- ===== src/Usbtest/Run/Balanced.antt =====
-- The tests free what they allocate.
use fuzzusb.Base.{
  ℕ, zero, suc, ◌+◌, ◌*◌, ◌-◌, ◌≡◌, refl, ◌∙◌, arith, Bool, true, false, Option, none, List, [],
  ◌∷◌, if◌then◌else◌, ◌==◌, pick,
}
use fuzzusb.Usb.{Ret, ret, err, eopnotsupp, Descriptor, is_super}
use fuzzusb.Usbtest.Io.{is_zero}
use fuzzusb.Usbtest.Select.{Pipe, TestDev}
use fuzzusb.Usbtest.Run.{
  Params, Setting, Actions, when_allocated, and_free, while_zero, is_pipe, with_urb, halt_simple,
  toggle_sync_simple, unlink_simple, test_unaligned_bulk, then_out, then_sync,
}
use fuzzusb.Usbtest.Run.Switch.{Case, switch}

-- An allocation takes one thing or fails.
abbrev pub Takes : {W : Type 0} → (W → ℕ) → W → Bool × W → Type 0
Takes held w (false, v) = held v ≡ held w
Takes held w (true, v) = held v ≡ held w + 1

-- How many of the things that were allocated are still there: what the calls do to that
pub record Laws {W : Type 0} (held : W → ℕ) (act : Actions W) : Type 0 where
  pub alloc_urb :
      (pipe : Option Pipe) (n : ℕ) (premapped : Bool) (o : ℕ) (i : Option Descriptor) (w : W)
      → Takes held w (act.alloc_urb pipe n premapped o i w)
  pub free_urb : (w : W) → held (act.free_urb w) ≡ held w - 1
  pub alloc_sglist :
      (n len vary : ℕ) (pipe : Option Pipe) (w : W)
      → Takes held w (act.alloc_sglist n len vary pipe w)
  pub free_sglist : (n : ℕ) (w : W) → held (act.free_sglist n w) ≡ held w - 1
  pub alloc_ctrl_urb : (n : ℕ) (w : W) → Takes held w (act.alloc_ctrl_urb n w)
  pub kmalloc : (n : ℕ) (w : W) → Takes held w (act.kmalloc n w)
  pub kfree : (w : W) → held (act.kfree w) ≡ held w - 1
  pub no_host_data : (w : W) → held (act.no_host_data w) ≡ held w
  pub set_interface : (n alt : ℕ) (w : W) → held (act.set_interface n alt w).1 ≡ held w
  pub submit_ctrl : (w : W) → held (act.submit_ctrl w).1 ≡ held w
  pub wait : (w : W) → held (act.wait w) ≡ held w
  pub simple_io :
      (pipe : Option Pipe) (n vary : ℕ) (w : W) → held (act.simple_io pipe n vary w).1 ≡ held w
  pub perform_sglist :
      (n : ℕ) (pipe : Option Pipe) (len : ℕ) (w : W)
      → held (act.perform_sglist n pipe len w).1 ≡ held w
  pub ch9_postconfig : (w : W) → held (act.ch9_postconfig w).1 ≡ held w
  pub test_ctrl_queue : (len n : ℕ) (w : W) → held (act.test_ctrl_queue len n w).1 ≡ held w
  pub unlink1 :
      (pipe : Option Pipe) (n : ℕ) (async : Bool) (w : W)
      → held (act.unlink1 pipe n async w).1 ≡ held w
  pub unlink_queued :
      (pipe : Option Pipe) (num n : ℕ) (w : W) → held (act.unlink_queued pipe num n w).1 ≡ held w
  pub test_halt : (pipe : Option Pipe) (w : W) → held (act.test_halt pipe w).1 ≡ held w
  pub test_toggle_sync :
      (pipe : Option Pipe) (w : W) → held (act.test_toggle_sync pipe w).1 ≡ held w
  pub ctrl_out : (count len vary o : ℕ) (w : W) → held (act.ctrl_out count len vary o w).1 ≡ held w
  pub test_queue :
      (p : Params) (pipe : Option Pipe) (d : Option Descriptor) (o : ℕ) (w : W)
      → held (act.test_queue p pipe d o w).1 ≡ held w

-- A test that leaves nothing behind
abbrev pub Keeps : {W : Type 0} → (W → ℕ) → (W → Ret × W) → Type 0
Keeps {W} held body = (w : W) → held (body w).1 ≡ held w

pub when_allocated-Keeps :
    {W : Type 0} (held : W → ℕ) (body : W → Ret × W) (free : W → W) (w : W) (got : Bool × W)
    → Keeps held body
    → ((v : W) → held (free v) ≡ held v - 1)
    → Takes held w got
    → held (when_allocated (λ v. and_free free (body v)) got).1 ≡ held w
when_allocated-Keeps held body free w (false, v) k f t = t
when_allocated-Keeps held body free w (true, v) k f t =
    let last = f (body v).1 in let kept = k v in omega arith

pub while_zero-Keeps :
    {W : Type 0} (held : W → ℕ) (body : W → Ret × W) (n : ℕ) (got : Ret × W)
    → Keeps held body
    → held (while_zero body n got).1 ≡ held got.1
unfolding while_zero
while_zero-Keeps held body zero (r, w) k = refl
while_zero-Keeps {W} held body (suc n) (r, w) k =
    pick (λ (got : Ret × W). held got.1 ≡ held w) (is_zero r) (while_zero body n (body w)) (r, w)
      (λ e. while_zero-Keeps held body n (body w) k ∙ k w) (λ e. refl)

-- Every case of the list keeps what is held.
abbrev pub AllKeep : {W : Type 0} → (W → ℕ) → List (Case W) → Type 0
AllKeep held [] = Unit
AllKeep held (c ∷ cs) = Keeps held c.body × AllKeep held cs

pub switch-Keeps :
    {W : Type 0} (held : W → ℕ) (n : ℕ) (cs : List (Case W)) (default : W → Ret × W)
    → AllKeep held cs
    → Keeps held default
    → Keeps held (switch n cs default)
unfolding switch
switch-Keeps held n [] default k d w = d w
switch-Keeps {W} held n (c ∷ cs) default (k, ks) d w =
    let rest = switch-Keeps held n cs default ks d w in
    pick (λ (got : Ret × W). held got.1 ≡ held w) (n == c.number)
      (if c.applies then c.body w else (err eopnotsupp, w)) (switch n cs default w)
      (λ e.
        pick (λ (got : Ret × W). held got.1 ≡ held w) c.applies (c.body w) (err eopnotsupp, w)
          (λ e'. k w) (λ e'. refl))
      (λ e. rest)

module _ {W : Type 0} (held : W → ℕ) (act : Actions W) (laws : Laws held act) (setting : Setting)
    (dev : TestDev) where
  pub with_urb-Keeps :
      (pipe : Option Pipe) (n : ℕ) (premapped : Bool) (o : ℕ) (i : Option Descriptor)
      (body : W → Ret × W)
      → Keeps held body
      → Keeps held (with_urb act setting dev pipe n premapped o i body)
  with_urb-Keeps pipe n premapped o i body k w =
      when_allocated-Keeps held body act.free_urb w (act.alloc_urb pipe n premapped o i w) k
        laws.free_urb (laws.alloc_urb pipe n premapped o i w)

  pub then_out-Keeps : (got : Ret × W) → held (then_out act setting dev got).1 ≡ held got.1
  then_out-Keeps (err e, w) = refl
  then_out-Keeps (ret n, w) =
      pick (λ (got : Ret × W). held got.1 ≡ held w) (is_pipe dev.out_pipe)
        (act.test_halt dev.out_pipe w) (ret n, w) (λ e. laws.test_halt dev.out_pipe w) (λ e. refl)

  pub halt_simple-Keeps : Keeps held (halt_simple act setting dev)
  unfolding halt_simple
  halt_simple-Keeps w =
      with_urb-Keeps none (if is_super setting.speed then 1024 else 512) true 0 none
        (λ v.
          then_out act setting dev
            (if is_pipe dev.in_pipe then act.test_halt dev.in_pipe v else (ret 0, v)))
        (λ v.
          then_out-Keeps (if is_pipe dev.in_pipe then act.test_halt dev.in_pipe v else (ret 0, v))
          ∙ pick (λ (got : Ret × W). held got.1 ≡ held v) (is_pipe dev.in_pipe)
              (act.test_halt dev.in_pipe v) (ret 0, v) (λ e. laws.test_halt dev.in_pipe v)
              (λ e. refl))
        w

  pub toggle_sync_simple-Keeps : Keeps held (toggle_sync_simple act setting dev)
  unfolding toggle_sync_simple
  toggle_sync_simple-Keeps w =
      with_urb-Keeps none (2 * setting.maxpacket dev.out_pipe) true 0 none
        (act.test_toggle_sync dev.out_pipe) (laws.test_toggle_sync dev.out_pipe) w

  pub then_sync-Keeps :
      (pipe : Option Pipe) (len : ℕ) (got : Ret × W)
      → held (then_sync act setting dev pipe len got).1 ≡ held got.1
  then_sync-Keeps pipe len (r, w) =
      pick (λ (got : Ret × W). held got.1 ≡ held w) (is_zero r) (act.unlink1 pipe len false w)
        (r, w) (λ e. laws.unlink1 pipe len false w) (λ e. refl)

  pub unlink_simple-Keeps :
      (pipe : Option Pipe) (len : ℕ) → Keeps held (unlink_simple act setting dev pipe len)
  unfolding unlink_simple
  unlink_simple-Keeps pipe len w =
      then_sync-Keeps pipe len (act.unlink1 pipe len true w) ∙ laws.unlink1 pipe len true w

  pub test_unaligned_bulk-Keeps :
      (pipe : Option Pipe) (len n : ℕ) (premapped : Bool)
      → Keeps held (test_unaligned_bulk act setting dev pipe len n premapped)
  unfolding test_unaligned_bulk
  test_unaligned_bulk-Keeps pipe len n premapped =
      with_urb-Keeps pipe len premapped 1 none (act.simple_io pipe n 0) (laws.simple_io pipe n 0)
