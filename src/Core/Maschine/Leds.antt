-- ===== src/Core/Maschine/Leds.antt =====
-- What the LED operations of the device send.
use openmk.Prelude.{
  ℕ, ◌+◌, ◌≡◌, ◌∙◌, refl, sym, List, ◌∷◌, replicate, length, length-replicate, Outcome, arith,
}
use openmk.Proto.Types.{
  Rgb, black, ProtoError, report_out_button_leds, touchstrip_led_count, pad_count,
}
use openmk.Proto.Writer.{Writes, Writes-exact}
use openmk.Proto.HidOut.{
  button_led_slots, pad_led_payload, encode_button_leds, encode_pad_leds, encode_pads_solid,
}
use openmk.Proto.HidOut.Reports.{
  pad_report, length-pad_report, encode_button_leds-Writes, encode_pad_leds-Writes,
  encode_pads_solid-Writes,
}
use openmk.Core.Transport.{UsbLibrary}
use openmk.Core.Maschine.{Maschine, write_hid, write_encoded, solid_pads, set_pads, set_button_leds}

module _ {UsbError TransferError Info Device Interface Wire InboundRx EventRx : Type 0}
    (lib : UsbLibrary UsbError TransferError Info Device Interface Wire)
    (m : Maschine Device Interface InboundRx EventRx) (wire : Wire) where
  written_exact :
      (report : List ℕ) (encode : List ℕ → Outcome ProtoError (ℕ × List ℕ)) (n : ℕ)
      → Writes report encode (replicate n 0)
      → n ≡ length report
      → write_encoded lib m (encode (replicate n 0)) wire ≡ write_hid lib m report wire
  unfolding write_encoded
  written_exact report encode n writes e =
      rw (Writes-exact report encode (replicate n 0) writes (length-replicate {A = ℕ} n 0 ∙ e)) refl

  -- The encoders never refuse the buffer, and setting LEDs is one write of a HID report: for the pads the
  -- report id, the strip's colours and the pads' colours, each colour as its red, green and blue byte and
  -- not as an entry of a palette, where one colour for all pads turns the strip off; for the buttons the
  -- report id and the values. Conditions: there are 25 strip colours, 16 pad colours and 62 values.
  pub leds_lem :
      (color : Rgb) (strip pads : List Rgb) (values : List ℕ)
      → length strip ≡ touchstrip_led_count
      → length pads ≡ pad_count
      → length values ≡ button_led_slots
      → (solid_pads lib m color wire
          ≡ write_hid lib m
              (pad_report (replicate touchstrip_led_count black) (replicate pad_count color))
              wire)
        × (set_pads lib m strip pads wire ≡ write_hid lib m (pad_report strip pads) wire)
        × (set_button_leds lib m values wire
            ≡ write_hid lib m (report_out_button_leds ∷ values) wire)
  unfolding solid_pads set_pads set_button_leds
  leds_lem color strip pads values e f g = (
    written_exact _ (encode_pads_solid color) (1 + pad_led_payload)
        (encode_pads_solid-Writes color (replicate (1 + pad_led_payload) 0))
        (sym (
          length-pad_report (replicate touchstrip_led_count black) (replicate pad_count color) refl
            refl)),
    written_exact _ (encode_pad_leds strip pads) (1 + pad_led_payload)
        (encode_pad_leds-Writes strip pads (replicate (1 + pad_led_payload) 0) e f)
        (sym (length-pad_report strip pads e f)),
    written_exact _ (encode_button_leds values) (1 + button_led_slots)
        (encode_button_leds-Writes values (replicate (1 + button_led_slots) 0) g) (omega arith),
  )
