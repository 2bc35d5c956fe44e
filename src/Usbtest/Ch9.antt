-- ===== src/Usbtest/Ch9.antt =====
-- `ch9_postconfig` of patch/kernel/usbtest.c, with `get_altsetting` and `set_altsetting`: requests of
-- chapter 9 of the USB specification that a configured device must answer.
pub mod Defined
use fuzzusb.Base.{
  ℕ, zero, suc, ◌+◌, ◌*◌, ◌-◌, min, Bool, true, false, not, ◌&&◌, ◌||◌, Option, none, some, List,
  [], ◌∷◌, length, take, overlay, if◌then◌else◌, leb, ◌==◌,
}
use fuzzusb.Usb.{Ret, ret, err, Errno, epipe, other, Speed, is_high}
use fuzzusb.Usbtest.Io.{is_zero}
use fuzzusb.Usbtest.Halt.{is_epipe}
use fuzzusb.Usbtest.Ctrl.{edom}
use fuzzusb.Usbtest.Descs.{get, tbuf_size, is_good_config, check_caps}

-- The device with the host core, which have a state `W`. A request answers with a result and the bytes
-- that it has put into the buffer.
pub record Peer (W : Type 0) : Type 0 where
  pub set_interface : ℕ → ℕ → W → Ret × W
  pub get_interface : ℕ → W → (Ret × List ℕ) × W
  pub get_configuration : W → (Ret × List ℕ) × W
  -- `usb_get_descriptor`, with type, index and size
  pub get_descriptor : ℕ → ℕ → ℕ → W → (Ret × List ℕ) × W
  -- `usb_get_std_status`, of the device or of an interface
  pub get_std_status : Option ℕ → W → (Ret × List ℕ) × W

-- What is known of the device: the numbers of its alternate settings, and of the interface, ...
pub record Known : Type 0 where
  pub alternate_settings : List ℕ
  pub interface_number : ℕ
  pub num_configurations : ℕ
  pub configuration_value : ℕ
  pub bcd_usb : ℕ
  pub speed : Speed

-- The world and `dev->buf`
abbrev pub State : Type 0 → Type 0
State W = W × List ℕ

-- A check goes on, or returns a result; `undefined` is a read behind the end of the buffer.
pub data Check (W : Type 0) : Type 0 where
  undefined : Check W
  stop : Ret → State W → Check W
  go : State W → Check W

infixl 5 ◌>>=◌
abbrev pub ◌>>=◌ : {W : Type 0} → Check W → (State W → Check W) → Check W
undefined >>= next = undefined
stop r s >>= next = stop r s
go s >>= next = next s

-- `(retval < 0) ? retval : -EDOM`
abbrev pub or_edom : Ret → Ret
or_edom (ret n) = err edom
or_edom (err e) = err e

-- At most `size` bytes are put into the buffer.
abbrev pub fetch : {W : Type 0} → ℕ → List ℕ → (Ret × List ℕ) × W → Ret × State W
fetch size buf ((r, bytes), w) = (r, (w, overlay (take size bytes) buf))

abbrev pub is_ret : ℕ → Ret → Bool
is_ret n (ret m) = m == n
is_ret n (err e) = false

-- `if (retval != n) return (retval < 0) ? retval : -EDOM`
abbrev pub expect_ret : {W : Type 0} → ℕ → Ret × State W → Check W
expect_ret n (r, s) = if is_ret n r then go s else stop (or_edom r) s

-- `if (retval) return retval`
abbrev pub expect_zero : {W : Type 0} → Ret × State W → Check W
expect_zero (r, s) = if is_zero r then go s else stop r s

-- `if (!good) return (retval < 0) ? retval : -EDOM`
abbrev pub expect_good : {W : Type 0} → Option Bool → Ret → State W → Check W
expect_good none r s = undefined
expect_good (some true) r s = go s
expect_good (some false) r s = stop (or_edom r) s

module _ {W : Type 0} (peer : Peer W) (realworld : Bool) (k : Known) where
  -- `-ERANGE` for no byte
  abbrev pub alt_of : Ret × State W → Ret × State W
  alt_of (ret n, s) =
      (if n == 1 then ret (get s.1 0) else if n == 0 then err (other 34) else ret n, s)
  alt_of (err e, s) = (err e, s)

  unfoldable pub get_altsetting : State W → Ret × State W
  get_altsetting s = alt_of (fetch 1 s.1 (peer.get_interface k.interface_number s.0))

  abbrev pub with_buf : List ℕ → Ret × W → Ret × State W
  with_buf buf (r, w) = (r, (w, buf))

  unfoldable pub set_altsetting : ℕ → State W → Ret × State W
  set_altsetting alt s =
      if leb 256 alt
      then (err (other 22), s)
      else with_buf s.1 (peer.set_interface k.interface_number alt s.0)

  -- One round of the loop over the alternate settings
  abbrev pub check_alt : ℕ → State W → Check W
  check_alt alt s =
      if realworld && length k.alternate_settings == 1
      then go s
      else expect_zero (set_altsetting alt s) >>= λ s'. expect_ret alt (get_altsetting s')

  unfoldable pub check_alts : List ℕ → State W → Check W
  unfolding get_altsetting set_altsetting
  check_alts [] s = go s
  check_alts (alt ∷ alts) s = check_alt alt s >>= check_alts alts

  abbrev pub expect_config : Ret × State W → Check W
  expect_config (r, s) =
      if is_ret 1 r && get s.1 0 == k.configuration_value then go s else stop (or_edom r) s

  unfoldable pub check_configuration : State W → Check W
  check_configuration s =
      if not realworld || not (k.num_configurations == 1)
      then expect_config (fetch 1 s.1 (peer.get_configuration s.0))
      else go s

  -- `usb_get_descriptor` into the buffer
  abbrev pub descriptor : ℕ → ℕ → ℕ → State W → Ret × State W
  descriptor type index size s = fetch size s.1 (peer.get_descriptor type index size s.0)

  -- The device capabilities: `EDOM` for a bogus one
  abbrev pub caps_checked : ℕ → ℕ → State W → Check W
  caps_checked num total s = expect_good (check_caps s.1 total num 0 5) (ret 0) s

  -- After the header of the BOS descriptor, whose fields are read before the buffer is filled again
  abbrev pub check_set : ℕ → ℕ → State W → Check W
  check_set num total s = expect_ret total (descriptor 15 0 total s) >>= caps_checked num total

  unfoldable pub check_bos : State W → Check W
  check_bos s =
      if leb 528 k.bcd_usb
      then (expect_ret 5 (descriptor 15 0 5 s) >>= λ s'.
          check_set (get s'.1 4) (min tbuf_size (get s'.1 2 + 256 * get s'.1 3)) s')
      else go s

  abbrev pub expect_good_config : Ret × State W → Check W
  expect_good_config (r, s) = expect_good (is_good_config realworld s.1 r) r s

  -- The loop over the configurations, or those of the other speed, with `n` left from `i` on
  unfoldable pub check_configs : ℕ → ℕ → ℕ → State W → Check W
  check_configs type zero i s = go s
  check_configs type (suc n) i s =
      expect_good_config (descriptor type i tbuf_size s) >>= check_configs type n (i + 1)

  abbrev pub with_qualifier : Ret × State W → Check W
  with_qualifier (r, s) =
      if is_epipe r
      then (if is_high k.speed then stop r s else go s)
      else expect_ret 10 (r, s) >>= λ s'. check_configs 7 (get s'.1 8) 0 s'

  unfoldable pub check_qualifier : State W → Check W
  check_qualifier s = if k.bcd_usb == 512 then with_qualifier (descriptor 6 0 10 s) else go s

  abbrev pub status : Option ℕ → State W → Ret × State W
  status target s = fetch 2 s.1 (peer.get_std_status target s.0)

  unfoldable pub ch9_postconfig : State W → Check W
  ch9_postconfig s =
      check_alts k.alternate_settings s
      >>= check_configuration
      >>= (λ s1. expect_ret 18 (descriptor 1 0 18 s1))
      >>= check_bos
      >>= check_configs 2 k.num_configurations 0
      >>= check_qualifier
      >>= (λ s2. expect_zero (status none s2))
      >>= (λ s3. expect_zero (status (some k.interface_number) s3))
      >>= (λ s4. stop (ret 0) s4)
