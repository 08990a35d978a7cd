-- ===== src/Core/Maschine.antt =====
-- crates/maschine-core/src/device.rs: the opened device, `Maschine`, over the transport.
pub mod Leds
use openmk.Prelude.{
  ℕ, ◌+◌, ◌⊎◌, inl, inr, Bool, Option, none, some, List, [], ◌∷◌, replicate, Outcome, ok, err,
  panic,
}
use openmk.Nks.Plid.{Str}
use openmk.Proto.Types.{Rgb, ProtoError}
use openmk.Proto.HidOut.{
  button_led_slots, pad_led_payload, encode_button_leds, encode_pad_leds, encode_pads_solid,
}
use openmk.Core.Platform.{SystemCall, Log}
use openmk.Core.Device.{OpenOptions, OpenOptions_default}
use openmk.Core.Transport
use openmk.Core.Transport.{TransportError, Transport, UsbLibrary, open_transport}

-- `events` is the receiver of the events, until it is taken.
pub record Maschine (Device Interface InboundRx EventRx : Type 0) : Type 0 where
  pub transport : Transport Device Interface InboundRx
  pub events : Option EventRx
  pub options : OpenOptions

module _ {Device Interface InboundRx EventRx : Type 0} where
  -- The event stream, and the device after it.
  unfoldable pub take_events :
      Maschine Device Interface InboundRx EventRx
      → Option EventRx × Maschine Device Interface InboundRx EventRx
  take_events m = (m.events, record m { events = none })

module _ {UsbError TransferError Info Device Interface Wire : Type 0}
    (lib : UsbLibrary UsbError TransferError Info Device Interface Wire) where
  abbrev pub Written : Type 0
  Written = Outcome (TransportError UsbError TransferError) (Unit {0}) × Wire

  module _ {InboundRx EventRx : Type 0} where
    unfoldable pub write_hid : Maschine Device Interface InboundRx EventRx → List ℕ → Wire → Written
    write_hid m bytes wire = Transport.write_hid lib m.transport bytes wire

    unfoldable pub write_display :
        Maschine Device Interface InboundRx EventRx → List ℕ → Wire → Written
    write_display m bytes wire = Transport.write_display lib m.transport bytes wire

    -- `unwrap`, and the write of the buffer.
    unfoldable pub write_encoded :
        Maschine Device Interface InboundRx EventRx
        → Outcome ProtoError (ℕ × List ℕ)
        → Wire
        → Written
    write_encoded m (ok (n, buf)) wire = write_hid m buf wire
    write_encoded m (err e) wire = (panic, wire)
    write_encoded m panic wire = (panic, wire)

    unfoldable pub solid_pads : Maschine Device Interface InboundRx EventRx → Rgb → Wire → Written
    solid_pads m color wire =
        write_encoded m (encode_pads_solid color (replicate (1 + pad_led_payload) 0)) wire

    unfoldable pub set_pads :
        Maschine Device Interface InboundRx EventRx → List Rgb → List Rgb → Wire → Written
    set_pads m strip pads wire =
        write_encoded m (encode_pad_leds strip pads (replicate (1 + pad_led_payload) 0)) wire

    unfoldable pub set_button_leds :
        Maschine Device Interface InboundRx EventRx → List ℕ → Wire → Written
    set_button_leds m values wire =
        write_encoded m (encode_button_leds values (replicate (1 + button_led_slots) 0)) wire

    module _ (uid : Str) (pgrep : Str → Log → Option ℕ) (succeeds : SystemCall → Log → Bool)
        (stop_error : ℕ → Log → Str) where
      unfoldable pub with_transport :
          EventRx
          → OpenOptions
          → (TransportError UsbError TransferError ⊎ Transport Device Interface InboundRx) × Log
          → (TransportError UsbError TransferError ⊎ Maschine Device Interface InboundRx EventRx)
            × Log
      with_transport rx options (inl e, log) = (inl e, log)
      with_transport rx options (inr t, log) =
          (inr (record { transport = t; events = some rx; options = options }), log)

      -- `rx` is the receiver of the new event channel.
      unfoldable pub open_with :
          EventRx
          → OpenOptions
          → Bool
          → Log
          → (TransportError UsbError TransferError ⊎ Maschine Device Interface InboundRx EventRx)
            × Log
      open_with rx options forced log =
          with_transport rx options (open_transport lib uid pgrep succeeds stop_error forced log)

      unfoldable pub open_maschine :
          EventRx
          → Bool
          → Log
          → (TransportError UsbError TransferError ⊎ Maschine Device Interface InboundRx EventRx)
            × Log
      open_maschine rx forced log = open_with rx OpenOptions_default forced log
