-- ===== src/Usbtest/Ch9/Defined.antt =====
-- `ch9_postconfig` stays within its buffer, whatever the device answers.
use fuzzusb.Base.{
  ℕ, zero, suc, ◌+◌, ◌*◌, ◌≤◌, ◌≡◌, ◌≢◌, ◌∙◌, refl, arith, min, Bool, true, false, not, ◌&&◌, ◌||◌,
  Option, none, some, List, [], ◌∷◌, length, take, length-overlay, pick, leb, ◌==◌,
}
use fuzzusb.Usb.{Ret, ret, err, is_high}
use fuzzusb.Usbtest.Io.{is_zero}
use fuzzusb.Usbtest.Halt.{is_epipe}
use fuzzusb.Usbtest.Descs.{get, tbuf_size, is_good_config, check_caps}
use fuzzusb.Usbtest.Descs.Good.{is_good_config-ne-none, check_caps_iff}
use fuzzusb.Usbtest.Ch9.{
  Peer, Known, State, Check, undefined, stop, go, ◌>>=◌, or_edom, fetch, is_ret, expect_ret,
  expect_zero, expect_good, get_altsetting, set_altsetting, with_buf, alt_of, check_alt, check_alts,
  expect_config, check_configuration, descriptor, caps_checked, check_set, check_bos,
  expect_good_config, check_configs, with_qualifier, check_qualifier, status, ch9_postconfig,
}

-- A result that is 0 or negative
abbrev pub IsVerdict : Ret → Type 0
IsVerdict (ret n) = n ≡ 0
IsVerdict (err e) = Unit {0}

-- The buffer has its 256 bytes.
abbrev pub Whole : {W : Type 0} → State W → Type 0
Whole s = length s.1 ≡ 256

-- The check is defined; if it returns, then 0 or a negative result, and the buffer is whole.
abbrev pub IsSound : {W : Type 0} → Check W → Type 0
IsSound undefined = ⊥
IsSound (stop r s) = IsVerdict r × Whole s
IsSound (go s) = Whole s

or_edom-IsVerdict : (r : Ret) → IsVerdict (or_edom r)
or_edom-IsVerdict (ret n) = tt
or_edom-IsVerdict (err e) = tt

module _ {W : Type 0} where
  >>=-IsSound :
      (m : Check W) (next : State W → Check W)
      → IsSound m
      → ((s : State W) → Whole s → IsSound (next s))
      → IsSound (m >>= next)
  >>=-IsSound undefined next h n = h
  >>=-IsSound (stop r s) next h n = h
  >>=-IsSound (go s) next h n = n s h

  fetch-Whole :
      (size : ℕ) (buf : List ℕ) (a : (Ret × List ℕ) × W)
      → length buf ≡ 256
      → Whole (fetch size buf a).1
  fetch-Whole size buf ((r, bytes), w) h = length-overlay (take size bytes) buf ∙ h

  expect_ret-IsSound : (n : ℕ) (a : Ret × State W) → Whole a.1 → IsSound (expect_ret n a)
  expect_ret-IsSound n (r, s) h =
      pick IsSound (is_ret n r) (go s) (stop (or_edom r) s) (λ _. h) (λ _. (or_edom-IsVerdict r, h))

  expect_zero-IsSound : (a : Ret × State W) → IsVerdict a.0 → Whole a.1 → IsSound (expect_zero a)
  expect_zero-IsSound (r, s) v h = pick IsSound (is_zero r) (go s) (stop r s) (λ _. h) (λ _. (v, h))

  expect_good-IsSound :
      (good : Option Bool) (r : Ret) (s : State W)
      → good ≢ none
      → Whole s
      → IsSound (expect_good good r s)
  expect_good-IsSound none r s d h = d refl
  expect_good-IsSound (some true) r s d h = h
  expect_good-IsSound (some false) r s d h = (or_edom-IsVerdict r, h)

-- The check returns.
abbrev pub IsDone : {W : Type 0} → Check W → Type 0
IsDone undefined = ⊥
IsDone (stop r s) = IsVerdict r × Whole s
IsDone (go s) = ⊥

done : {W : Type 0} (m : Check W) → IsSound m → IsDone (m >>= λ s. stop (ret 0) s)
done undefined h = h
done (stop r s) h = h
done (go s) h = (refl, h)

-- Setting an interface and asking for a status return 0 or a negative result.
pub record IsUsual {W : Type 0} (peer : Peer W) : Type 0 where
  pub sets : (n a : ℕ) (w : W) → IsVerdict (peer.set_interface n a w).0
  pub tells : (t : Option ℕ) (w : W) → IsVerdict (peer.get_std_status t w).0.0

module _ {W : Type 0} (peer : Peer W) (usual : IsUsual peer) (realworld : Bool) (k : Known) where
  with_buf-IsSound :
      (buf : List ℕ) (a : Ret × W)
      → IsVerdict a.0
      → length buf ≡ 256
      → IsSound (expect_zero (with_buf peer realworld k buf a))
  with_buf-IsSound buf (r, w) v h = expect_zero-IsSound (r, (w, buf)) v h

  set_altsetting-IsSound :
      (alt : ℕ) (s : State W)
      → Whole s
      → IsSound (expect_zero (set_altsetting peer realworld k alt s))
  unfolding set_altsetting
  set_altsetting-IsSound alt s h =
      pick (λ (a : Ret × State W). IsSound (expect_zero a)) (leb 256 alt) _ _ (λ _. (tt, h))
        (λ _.
          with_buf-IsSound s.1 (peer.set_interface k.interface_number alt s.0)
            (usual.sets k.interface_number alt s.0) h)

  alt_of-Whole : (a : Ret × State W) → Whole a.1 → Whole (alt_of peer realworld k a).1
  alt_of-Whole (ret n, s) h = h
  alt_of-Whole (err e, s) h = h

  get_altsetting-Whole : (s : State W) → Whole s → Whole (get_altsetting peer realworld k s).1
  unfolding get_altsetting
  get_altsetting-Whole s h =
      let a = peer.get_interface k.interface_number s.0 in
      alt_of-Whole (fetch 1 s.1 a) (fetch-Whole 1 s.1 a h)

  check_alts-IsSound :
      (alts : List ℕ) (s : State W) → Whole s → IsSound (check_alts peer realworld k alts s)
  unfolding check_alts
  check_alts-IsSound [] s h = h
  check_alts-IsSound (alt ∷ alts) s h =
      >>=-IsSound (check_alt peer realworld k alt s) (check_alts peer realworld k alts)
        (pick IsSound (realworld && length k.alternate_settings == 1) (go s) _ (λ _. h)
          (λ _.
            >>=-IsSound (expect_zero (set_altsetting peer realworld k alt s)) _
              (set_altsetting-IsSound alt s h)
              (λ s' h'.
                expect_ret-IsSound alt (get_altsetting peer realworld k s')
                  (get_altsetting-Whole s' h'))))
        (check_alts-IsSound alts)

  check_configuration-IsSound :
      (s : State W) → Whole s → IsSound (check_configuration peer realworld k s)
  unfolding check_configuration
  check_configuration-IsSound s h =
      pick IsSound (not realworld || not (k.num_configurations == 1))
        (expect_config peer realworld k (fetch 1 s.1 (peer.get_configuration s.0))) (go s)
        (λ _.
          configured (fetch 1 s.1 (peer.get_configuration s.0))
            (fetch-Whole 1 s.1 (peer.get_configuration s.0) h))
        (λ _. h)
    where
      configured : (a : Ret × State W) → Whole a.1 → IsSound (expect_config peer realworld k a)
      configured (r, s') h' =
          pick IsSound (is_ret 1 r && get s'.1 0 == k.configuration_value) (go s')
            (stop (or_edom r) s') (λ _. h') (λ _. (or_edom-IsVerdict r, h'))

  descriptor-Whole :
      (type index size : ℕ) (s : State W)
      → Whole s
      → Whole (descriptor peer realworld k type index size s).1
  descriptor-Whole type index size s h =
      fetch-Whole size s.1 (peer.get_descriptor type index size s.0) h

  check_set-IsSound :
      (num total : ℕ) (s : State W)
      → total ≤ 256
      → Whole s
      → IsSound (check_set peer realworld k num total s)
  check_set-IsSound num total s l h =
      >>=-IsSound (expect_ret total (descriptor peer realworld k 15 0 total s))
        (caps_checked peer realworld k num total)
        (expect_ret-IsSound total (descriptor peer realworld k 15 0 total s)
          (descriptor-Whole 15 0 total s h))
        (λ s' h'.
          expect_good-IsSound (check_caps s'.1 total num 0 5) (ret 0) s'
            ((check_caps_iff s'.1 total num 0 5 (omega arith)).1) h')

  check_bos-IsSound : (s : State W) → Whole s → IsSound (check_bos peer realworld k s)
  unfolding check_bos
  check_bos-IsSound s h =
      pick IsSound (leb 528 k.bcd_usb)
        (expect_ret 5 (descriptor peer realworld k 15 0 5 s) >>= λ s'.
          check_set peer realworld k (get s'.1 4) (min tbuf_size (get s'.1 2 + 256 * get s'.1 3))
            s')
        (go s)
        (λ _.
          >>=-IsSound (expect_ret 5 (descriptor peer realworld k 15 0 5 s)) _
            (expect_ret-IsSound 5 (descriptor peer realworld k 15 0 5 s)
              (descriptor-Whole 15 0 5 s h))
            (λ s' h'.
              check_set-IsSound (get s'.1 4) (min tbuf_size (get s'.1 2 + 256 * get s'.1 3)) s'
                (omega arith) h'))
        (λ _. h)

  expect_good_config-IsSound :
      (a : Ret × State W) → Whole a.1 → IsSound (expect_good_config peer realworld k a)
  expect_good_config-IsSound (r, s) h =
      expect_good-IsSound (is_good_config realworld s.1 r) r s
        (is_good_config-ne-none realworld s.1 r (omega arith)) h

  check_configs-IsSound :
      (type n i : ℕ) (s : State W) → Whole s → IsSound (check_configs peer realworld k type n i s)
  unfolding check_configs
  check_configs-IsSound type zero i s h = h
  check_configs-IsSound type (suc n) i s h =
      let a = descriptor peer realworld k type i tbuf_size s in
      >>=-IsSound (expect_good_config peer realworld k a)
        (check_configs peer realworld k type n (i + 1))
        (expect_good_config-IsSound a (descriptor-Whole type i tbuf_size s h))
        (check_configs-IsSound type n (i + 1))

  with_qualifier-IsSound :
      (a : Ret × State W) → Whole a.1 → IsSound (with_qualifier peer realworld k a)
  with_qualifier-IsSound (r, s) h =
      pick IsSound (is_epipe r) _ _
        (λ e. pick IsSound (is_high k.speed) (stop r s) (go s) (λ _. (piped r e, h)) (λ _. h))
        (λ _.
          >>=-IsSound (expect_ret 10 (r, s)) _ (expect_ret-IsSound 10 (r, s) h)
            (λ s' h'. check_configs-IsSound 7 (get s'.1 8) 0 s' h'))
    where
      piped : (q : Ret) → is_epipe q ≡ true → IsVerdict q
      piped (ret n) e = cc
      piped (err x) e = tt

  check_qualifier-IsSound : (s : State W) → Whole s → IsSound (check_qualifier peer realworld k s)
  unfolding check_qualifier
  check_qualifier-IsSound s h =
      let a = descriptor peer realworld k 6 0 10 s in
      pick IsSound (k.bcd_usb == 512) (with_qualifier peer realworld k a) (go s)
        (λ _. with_qualifier-IsSound a (descriptor-Whole 6 0 10 s h)) (λ _. h)

  fetch-IsVerdict :
      (size : ℕ) (buf : List ℕ) (a : (Ret × List ℕ) × W)
      → IsVerdict a.0.0
      → IsVerdict (fetch size buf a).0
  fetch-IsVerdict size buf ((r, bytes), w) v = v

  status-IsSound :
      (t : Option ℕ) (s : State W) → Whole s → IsSound (expect_zero (status peer realworld k t s))
  status-IsSound t s h =
      let a = peer.get_std_status t s.0 in
      expect_zero-IsSound (fetch 2 s.1 a) (fetch-IsVerdict 2 s.1 a (usual.tells t s.0))
        (fetch-Whole 2 s.1 a h)

  -- Whatever the device answers, `ch9_postconfig` reads only within the 256 bytes of its buffer, returns,
  -- and returns 0 or a negative result; setting an interface and asking for a status return 0 or a
  -- negative result.
  pub ch9_postconfig-IsDone : (s : State W) → Whole s → IsDone (ch9_postconfig peer realworld k s)
  unfolding ch9_postconfig
  ch9_postconfig-IsDone s h = done _ (
      >>=-IsSound _ _
        (>>=-IsSound _ _
          (>>=-IsSound _ _
            (>>=-IsSound _ _
              (>>=-IsSound _ _
                (>>=-IsSound _ _
                  (>>=-IsSound _ _ (check_alts-IsSound k.alternate_settings s h)
                    check_configuration-IsSound)
                  (λ s1 h1.
                    expect_ret-IsSound 18 (descriptor peer realworld k 1 0 18 s1)
                      (descriptor-Whole 1 0 18 s1 h1)))
                check_bos-IsSound)
              (check_configs-IsSound 2 k.num_configurations 0))
            check_qualifier-IsSound)
          (status-IsSound none))
        (status-IsSound (some k.interface_number)))
