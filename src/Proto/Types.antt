-- ===== src/Proto/Types.antt =====
-- crates/maschine-proto/src/types.rs: constants, colours and the errors of the protocol.
pub mod Colour
use openmk.Prelude.{ℕ, ◌*◌, bit_and, bit_or, shr, shl}

abbrev pub vid_ni : ℕ
vid_ni = 0x17cc

abbrev pub pid_mk3 : ℕ
pid_mk3 = 0x1600

abbrev pub iface_hid : ℕ
iface_hid = 4

abbrev pub iface_display : ℕ
iface_display = 5

abbrev pub ep_display_out : ℕ
ep_display_out = 0x04

abbrev pub report_in_controls : ℕ
report_in_controls = 0x01

abbrev pub report_in_pads : ℕ
report_in_pads = 0x02

abbrev pub report_out_button_leds : ℕ
report_out_button_leds = 0x80

abbrev pub report_out_pad_leds : ℕ
report_out_pad_leds = 0x81

abbrev pub pad_count : ℕ
pad_count = 16

abbrev pub touchstrip_led_count : ℕ
touchstrip_led_count = 25

abbrev pub macro_encoder_count : ℕ
macro_encoder_count = 8

pub data DisplayId : Type 0 where
  left right : DisplayId

-- `display as u8`
abbrev pub as_byte : DisplayId → ℕ
as_byte left = 0
as_byte right = 1

abbrev pub width : ℕ
width = 480

abbrev pub height : ℕ
height = 272

abbrev pub pixel_count : ℕ
pixel_count = width * height

-- The channels are bytes.
pub record Rgb : Type 0 where
  pub r : ℕ
  pub g : ℕ
  pub b : ℕ

abbrev pub black : Rgb
black = record { r = 0; g = 0; b = 0 }

-- The packed word, in native byte order.
unfoldable pub to_rgb565 : Rgb → ℕ
to_rgb565 c =
    let r = bit_and (shr c.r 3) 0x1f in
    let g = bit_and (shr c.g 2) 0x3f in
    let b = bit_and (shr c.b 3) 0x1f in bit_or (bit_or (shl 16 r 11) (shl 16 g 5)) b

pub data ProtoError : Type 0 where
  short : ℕ → ℕ → ProtoError
  unknown_report : ℕ → ProtoError
  bad_pad : ℕ → ProtoError
  bad_encoder : ℕ → ProtoError
  output_too_small : ℕ → ℕ → ProtoError
