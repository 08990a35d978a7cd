-- ===== src/Core/Transport/Tests.antt =====
-- Runs of crates/maschine-core/src/transport and of the LED operations of device.rs, on a USB library
-- that lists two devices and keeps what is sent.
use openmk.Prelude.{
  ℕ, ◌≡◌, refl, inl, inr, true, false, not, ◌&&◌, none, List, [], ◌∷◌, replicate, ◌==◌,
  if◌then◌else◌, codes,
}
use openmk.Proto.Types.{black, report_out_button_leds, touchstrip_led_count, pad_count}
use openmk.Proto.HidOut.Reports.{pad_report}
use openmk.Core.Platform.Stopped.{is_stopped, is_out, has_pid}
use openmk.Core.Platform.Tests.{pgrep_long, always, no_text, claim_log, claim_state, claims}
use openmk.Core.Device.{OpenOptions_default}
use openmk.Core.Transport.{
  nusb, UsbLibrary, find_mk3, connect, open_found, claim_interfaces, claim, open_transport,
  Completion, completed, failed_transfer,
}
use openmk.Core.Transport.Opening.{when_over, open_transport-capture_and_suspend}
use openmk.Core.Maschine.{Maschine, write_hid, solid_pads, set_pads, set_button_leds}
use openmk.Core.Maschine.Leds.{leds_lem}

-- The display's interface is taken.
abbrev busy_display : UsbLibrary ℕ ℕ (ℕ × ℕ) ℕ ℕ (List (ℕ × List ℕ))
busy_display = record {
  list_devices = λ log. inr ((0x17cc, 0x1700) ∷ ((0x17cc, 0x1600) ∷ []));
  vendor_id = λ d. d.0;
  product_id = λ d. d.1;
  open_device = λ d log. inr d.1;
  detach_and_claim = λ d n log. if n == 5 then inl 9 else inr n;
  interrupt_out = λ i ep bytes wire. (none, (ep, bytes) ∷ wire);
  bulk_out = λ i ep bytes wire. (none, (ep, bytes) ∷ wire);
}

display_is_busy : connect busy_display [] ≡ inl (claim 5 9)
unfolding connect find_mk3 open_found claim_interfaces
display_is_busy = refl

open_transport-capture_and_suspend_example :
    let over = when_over busy_display (codes "501") pgrep_long always no_text (
      open_transport busy_display
        (codes "501")
        pgrep_long
        always
        no_text
        {InboundRx = ℕ}
        false
        []) in
    (is_stopped 15 over ≡ (not (has_pid 15 (15 ∷ (16 ∷ []))) && is_stopped 15 []))
    × (is_out (codes "501") over ≡ (not true && is_out (codes "501") []))
open_transport-capture_and_suspend_example =
    open_transport-capture_and_suspend busy_display (codes "501") pgrep_long always no_text ℕ false
      [] claim_log claim_state 15 claims (λ l. refl) (λ l. refl)

abbrev completions : List (Completion ℕ)
completions =
    completed (1 ∷ []) true
    ∷ (failed_transfer 3 ∷ (completed [] true ∷ (completed (2 ∷ []) false ∷ [])))

abbrev device : Maschine ℕ ℕ ℕ ℕ
device = record {
  transport = nusb (record { device = 0; hid_iface = 4; display_iface = 5; guard = claim_state });
  events = none;
  options = OpenOptions_default;
}

leds_lem_example :
    (solid_pads busy_display device black []
      ≡ write_hid busy_display device
          (pad_report (replicate touchstrip_led_count black) (replicate pad_count black))
          [])
    × (set_pads busy_display device (replicate 25 black) (replicate 16 black) []
        ≡ write_hid busy_display device (pad_report (replicate 25 black) (replicate 16 black)) [])
    × (set_button_leds busy_display device (replicate 62 1) []
        ≡ write_hid busy_display device (report_out_button_leds ∷ replicate 62 1) [])
leds_lem_example =
    leds_lem busy_display device [] black (replicate 25 black) (replicate 16 black) (replicate 62 1)
      refl refl refl
