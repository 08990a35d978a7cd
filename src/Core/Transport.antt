-- ===== src/Core/Transport.antt =====
-- crates/maschine-core/src/transport: how the device is opened, written to and read. The USB library is
-- a parameter; what its calls answer may depend on what was done to the system before, which is in the
-- log of the platform claim.
pub mod Opening
pub mod Reader
pub mod Tests
use openmk.Prelude.{
  ℕ, ◌-◌, ◌+◌, ◌≡◌, ◌⊎◌, inl, inr, Bool, true, false, not, ◌&&◌, ◌==◌, Option, none, some, List, [],
  ◌∷◌, ◌++◌, if◌then◌else◌, codes, Outcome, ok, err, panic,
}
use openmk.Nks.Plid.{Str}
use openmk.Proto.Types.{vid_ni, pid_mk3, iface_hid, iface_display, ep_display_out}
use openmk.Core.Platform.{
  ClaimError, unsupported_platform, command, SystemCall, Log, MacOsClaimState, Claimed,
  capture_and_suspend, drop_claim,
}

-- `to_string` of a `ClaimError`
abbrev pub claim_error_text : ClaimError → Str
claim_error_text (unsupported_platform p) =
    codes "v0.1 only supports macOS; " ++ (p ++ codes " lands in v0.2")
claim_error_text (command c) = codes "claim subcommand failed: " ++ c

pub data TransportError (UsbError TransferError : Type 0) : Type 0 where
  usb : UsbError → TransportError UsbError TransferError
  transfer : TransferError → TransportError UsbError TransferError
  not_found : TransportError UsbError TransferError
  claim : ℕ → UsbError → TransportError UsbError TransferError
  platform : Str → TransportError UsbError TransferError

-- `_guard` holds the state of the claim.
pub record NusbTransport (Device Interface : Type 0) : Type 0 where
  pub device : Device
  pub hid_iface : Interface
  pub display_iface : Interface
  pub guard : MacOsClaimState

-- The fields that a method reads.
pub record DextTransport (InboundRx : Type 0) : Type 0 where
  pub hid_inbound : Option InboundRx
  pub has_display_iface : Bool

pub data Transport (Device Interface InboundRx : Type 0) : Type 0 where
  dext : DextTransport InboundRx → Transport Device Interface InboundRx
  nusb : NusbTransport Device Interface → Transport Device Interface InboundRx

-- The receiver that is handed out, and the transport after it; `closed` is the receiver of a channel
-- whose sender is gone.
unfoldable pub dext_spawn_hid_reader :
    {InboundRx : Type 0} → InboundRx → DextTransport InboundRx → InboundRx × DextTransport InboundRx
dext_spawn_hid_reader closed t = taken t.hid_inbound closed t
  where
    taken :
        {InboundRx : Type 0}
        → Option InboundRx
        → InboundRx
        → DextTransport InboundRx
        → InboundRx × DextTransport InboundRx
    taken (some rx) closed t = (rx, record t { hid_inbound = none })
    taken none closed t = (closed, t)

-- `?` on a call of the USB library.
abbrev pub and_usb {ℓ} : {E A : Type 0} {B : Type ℓ} → E ⊎ A → (E → B) → (A → B) → B
and_usb (inl e) fails next = fails e
and_usb (inr a) fails next = next a

-- What the USB library is: the devices it lists, their ids, the calls that open one and claim an interface
-- of it, and the two that send a payload to an endpoint, with the transfer's error if there is one.
pub record UsbLibrary (UsbError TransferError Info Device Interface Wire : Type 0) : Type 0 where
  pub list_devices : Log → UsbError ⊎ List Info
  pub vendor_id : Info → ℕ
  pub product_id : Info → ℕ
  pub open_device : Info → Log → UsbError ⊎ Device
  pub detach_and_claim : Device → ℕ → Log → UsbError ⊎ Interface
  pub interrupt_out : Interface → ℕ → List ℕ → Wire → Option TransferError × Wire
  pub bulk_out : Interface → ℕ → List ℕ → Wire → Option TransferError × Wire

module _ {UsbError TransferError Info Device Interface Wire : Type 0}
    (lib : UsbLibrary UsbError TransferError Info Device Interface Wire) where
  -- `find`
  unfoldable pub find_mk3 : List Info → Option Info
  find_mk3 [] = none
  find_mk3 (d ∷ ds) =
      if (lib.vendor_id d == vid_ni) && (lib.product_id d == pid_mk3) then some d else find_mk3 ds

  unfoldable pub claim_interfaces :
      Device → Log → TransportError UsbError TransferError ⊎ (Device × Interface × Interface)
  claim_interfaces device log =
      and_usb (lib.detach_and_claim device iface_hid log) (λ e. inl (claim iface_hid e))
        (λ hid.
          and_usb (lib.detach_and_claim device iface_display log) (λ e. inl (claim iface_display e))
            (λ display. inr (device, hid, display)))

  unfoldable pub open_found :
      Option Info → Log → TransportError UsbError TransferError ⊎ (Device × Interface × Interface)
  open_found none log = inl not_found
  open_found (some d) log =
      and_usb (lib.open_device d log) (λ e. inl (usb e)) (λ device. claim_interfaces device log)

  -- `NusbTransport::open` after the claim.
  unfoldable pub connect :
      Log → TransportError UsbError TransferError ⊎ (Device × Interface × Interface)
  connect log =
      and_usb (lib.list_devices log) (λ e. inl (usb e)) (λ ds. open_found (find_mk3 ds) log)

  -- `completion.status?`
  unfoldable pub transferred :
      Option TransferError × Wire
      → Outcome (TransportError UsbError TransferError) (Unit {0}) × Wire
  transferred (none, wire) = (ok _, wire)
  transferred (some e, wire) = (err (transfer e), wire)

  -- The two methods of the façade; those of `DextTransport` are `unimplemented!`.
  unfoldable pub write_hid :
      {InboundRx : Type 0}
      → Transport Device Interface InboundRx
      → List ℕ
      → Wire
      → Outcome (TransportError UsbError TransferError) (Unit {0}) × Wire
  write_hid (dext t) payload wire = (panic, wire)
  write_hid (nusb t) payload wire = transferred (lib.interrupt_out t.hid_iface 0x03 payload wire)

  unfoldable pub write_display :
      {InboundRx : Type 0}
      → Transport Device Interface InboundRx
      → List ℕ
      → Wire
      → Outcome (TransportError UsbError TransferError) (Unit {0}) × Wire
  write_display (dext t) payload wire = (panic, wire)
  write_display (nusb t) payload wire =
      transferred (lib.bulk_out t.display_iface ep_display_out payload wire)

  unfoldable pub has_display : {InboundRx : Type 0} → Transport Device Interface InboundRx → Bool
  has_display (dext t) = t.has_display_iface
  has_display (nusb t) = true

  -- What the platform claim asks of the system.
  module _ (uid : Str) (pgrep : Str → Log → Option ℕ) (succeeds : SystemCall → Log → Bool)
      (stop_error : ℕ → Log → Str) where
    -- The guard is dropped with an error, or kept by the transport.
    unfoldable pub with_guard :
        MacOsClaimState
        → TransportError UsbError TransferError ⊎ (Device × Interface × Interface)
        → Log
        → (TransportError UsbError TransferError ⊎ NusbTransport Device Interface) × Log
    with_guard guard (inl e) log = (inl e, drop_claim uid pgrep succeeds stop_error guard log)
    with_guard guard (inr (device, hid, display)) log = (
      inr (record { device = device; hid_iface = hid; display_iface = display; guard = guard }),
      log,
    )

    unfoldable pub open_claimed :
        Claimed MacOsClaimState
        → (TransportError UsbError TransferError ⊎ NusbTransport Device Interface) × Log
    open_claimed (inl e, log) = (inl (platform (claim_error_text e)), log)
    open_claimed (inr guard, log) = with_guard guard (connect log) log

    -- `NusbTransport::open`
    unfoldable pub nusb_open :
        Log → (TransportError UsbError TransferError ⊎ NusbTransport Device Interface) × Log
    nusb_open log = open_claimed (capture_and_suspend uid pgrep succeeds stop_error log)

    -- `DextTransport::open`
    unfoldable pub dext_open :
        {InboundRx : Type 0} → TransportError UsbError TransferError ⊎ DextTransport InboundRx
    dext_open = inl not_found

    unfoldable pub nusb_opened :
        {InboundRx : Type 0}
        → (TransportError UsbError TransferError ⊎ NusbTransport Device Interface) × Log
        → (TransportError UsbError TransferError ⊎ Transport Device Interface InboundRx) × Log
    nusb_opened (inl e, log) = (inl e, log)
    nusb_opened (inr t, log) = (inr (nusb t), log)

    unfoldable pub dext_or_nusb :
        {InboundRx : Type 0}
        → TransportError UsbError TransferError ⊎ DextTransport InboundRx
        → Log
        → (TransportError UsbError TransferError ⊎ Transport Device Interface InboundRx) × Log
    dext_or_nusb (inr t) log = (inr (dext t), log)
    dext_or_nusb (inl e) log = nusb_opened (nusb_open log)

    -- `Transport::open`; `forced` is whether `MASCHINE_FORCE_NUSB` is set.
    unfoldable pub open_transport :
        {InboundRx : Type 0}
        → Bool
        → Log
        → (TransportError UsbError TransferError ⊎ Transport Device Interface InboundRx) × Log
    open_transport forced log =
        if forced then nusb_opened (nusb_open log) else dext_or_nusb dext_open log

    -- The drop of a transport.
    unfoldable pub drop_transport :
        {InboundRx : Type 0} → Transport Device Interface InboundRx → Log → Log
    drop_transport (dext t) log = log
    drop_transport (nusb t) log = drop_claim uid pgrep succeeds stop_error t.guard log

-- The state of the task of `spawn_hid_reader`: how many requests the queue holds, and what was sent.
pub record HidReader : Type 0 where
  pub in_flight : ℕ
  pub sent : List (List ℕ)

-- A completion: the bytes that were read, or the transfer's error. Whether the receiver is there matters
-- when bytes are sent on.
pub data Completion (TransferError : Type 0) : Type 0 where
  completed : List ℕ → Bool → Completion TransferError
  failed_transfer : TransferError → Completion TransferError

-- Four requests are submitted first.
abbrev pub HidReader_new : HidReader
HidReader_new = record { in_flight = 4; sent = [] }

-- A completion leaves the queue, and a request is submitted.
unfoldable pub resubmit : HidReader → HidReader
resubmit s = record s { in_flight = s.in_flight - 1 + 1 }

abbrev pub is_empty_report : List ℕ → Bool
is_empty_report [] = true
is_empty_report (b ∷ bs) = false

-- The loop over the completions, the reader after it, and whether the loop has ended.
unfoldable pub hid_reader :
    {TransferError : Type 0} → List (Completion TransferError) → HidReader → HidReader × Bool
hid_reader [] s = (s, false)
hid_reader (failed_transfer e ∷ cs) s = hid_reader cs (resubmit s)
hid_reader (completed bytes there ∷ cs) s =
    let next = hid_reader cs (
      resubmit
        (record s { sent = if is_empty_report bytes then s.sent else s.sent ++ bytes ∷ [] })) in
    if not (is_empty_report bytes) && not there
    then (record s { in_flight = s.in_flight - 1 }, true)
    else next
