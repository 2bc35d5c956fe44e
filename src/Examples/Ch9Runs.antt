-- ===== src/Examples/Ch9Runs.antt =====
-- A USB 2.1 device with one alternate setting, one configuration and a USB 2.0 extension.
use fuzzusb.Base.{
  ℕ, ◌+◌, ◌≡◌, ◌≢◌, ◌↔◌, refl, arith, true, false, Option, none, some, List, [], ◌∷◌, if◌then◌else◌,
  ◌==◌,
}
use fuzzusb.Usb.{Ret, ret, high}
use fuzzusb.Usbtest.{zeros}
use fuzzusb.Usbtest.Descs.{is_good_config, check_caps, good_cap}
use fuzzusb.Usbtest.Descs.Good.{
  ConfigShape, IsRead, is_good_config_iff, All, GoodCap, headers, check_caps_iff,
}
use fuzzusb.Usbtest.Ch9.{
  Peer, Known, Check, stop, check_bos, check_configs, check_qualifier, check_alts, get_altsetting,
  set_altsetting, check_configuration, ch9_postconfig,
}
use fuzzusb.Usbtest.Ch9.Defined.{IsUsual, IsDone, ch9_postconfig-IsDone}

abbrev config_bytes : List ℕ
config_bytes = 9 ∷ 2 ∷ 18 ∷ 0 ∷ 1 ∷ 1 ∷ 0 ∷ 128 ∷ 50 ∷ []

abbrev bos_bytes : List ℕ
bos_bytes = 5 ∷ 15 ∷ 12 ∷ 0 ∷ 1 ∷ 7 ∷ 16 ∷ 2 ∷ 6 ∷ 0 ∷ 0 ∷ 0 ∷ []

config_iff_run :
    (is_good_config true config_bytes (ret 18) ≡ some true)
    ↔ (ConfigShape true config_bytes × IsRead (ret 18) config_bytes)
config_iff_run = is_good_config_iff true config_bytes (ret 18) (omega arith)

config_run : is_good_config true config_bytes (ret 18) ≡ some true
unfolding is_good_config
config_run = refl

check_caps_iff_example :
    ((check_caps bos_bytes 12 1 0 5 ≡ some true)
      ↔ All (GoodCap bos_bytes 12) (headers bos_bytes 12 1 0 5))
    × (check_caps bos_bytes 12 1 0 5 ≢ none)
check_caps_iff_example = check_caps_iff bos_bytes 12 1 0 5 (omega arith)

caps_run : check_caps bos_bytes 12 1 0 5 ≡ some true
unfolding check_caps good_cap
caps_run = refl

abbrev descriptor_of : ℕ → ℕ → Ret × List ℕ
descriptor_of type size =
    if type == 15
    then (ret size, bos_bytes)
    else if type == 2
    then (ret 18, config_bytes)
    else (ret size, [])

abbrev device : Peer ℕ
device = record {
  set_interface = λ n a w. (ret 0, w + 1);
  get_interface = λ n w. ((ret 1, 0 ∷ []), w);
  get_configuration = λ w. ((ret 1, 1 ∷ []), w);
  get_descriptor = λ type index size w. (descriptor_of type size, w);
  get_std_status = λ t w. ((ret 0, 1 ∷ 0 ∷ []), w);
}

device-IsUsual : IsUsual device
device-IsUsual = record { sets = λ n a w. refl; tells = λ t w. refl }

abbrev known : Known
known = record {
  alternate_settings = 0 ∷ [];
  interface_number = 0;
  num_configurations = 1;
  configuration_value = 1;
  bcd_usb = 528;
  speed = high;
}

ch9_postconfig-IsDone_example : IsDone (ch9_postconfig device false known (0, zeros 256))
ch9_postconfig-IsDone_example =
    ch9_postconfig-IsDone device device-IsUsual false known (0, zeros 256) (refl)

abbrev result : Check ℕ → Option Ret
result (stop r s) = some r
result _ = none

ch9_run : result (ch9_postconfig device false known (0, zeros 256)) ≡ some (ret 0)
unfolding ch9_postconfig check_alts get_altsetting set_altsetting check_configuration check_bos
    check_caps good_cap check_configs is_good_config check_qualifier
ch9_run = refl
