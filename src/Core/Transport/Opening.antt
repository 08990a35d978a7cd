-- ===== src/Core/Transport/Opening.antt =====
-- Opening the device and the state of the system around it.
use openmk.Prelude.{ℕ, ◌≡◌, ◌∙◌, refl, ap, ◌⊎◌, inl, inr, Bool, true, false, not, ◌&&◌, Option}
use openmk.Nks.Plid.{Str}
use openmk.Core.Platform.{
  sigcont, kill, SystemCall, Log, MacOsClaimState, capture_and_suspend, drop_claim,
}
use openmk.Core.Platform.Stopped.{is_stopped, is_out, has_pid}
use openmk.Core.Platform.Restored.{Restarts, drop_claim-capture_and_suspend}
use openmk.Core.Transport.{
  TransportError, Transport, UsbLibrary, connect, with_guard, open_claimed, nusb_open, dext_open,
  nusb_opened, dext_or_nusb, open_transport, drop_transport,
}

module _ {UsbError TransferError Info Device Interface Wire : Type 0}
    (lib : UsbLibrary UsbError TransferError Info Device Interface Wire) (uid : Str)
    (pgrep : Str → Log → Option ℕ) (succeeds : SystemCall → Log → Bool)
    (stop_error : ℕ → Log → Str) where
  -- The log when the transport, if there is one, has been dropped.
  abbrev pub when_over :
      {InboundRx : Type 0}
      → (TransportError UsbError TransferError ⊎ Transport Device Interface InboundRx) × Log
      → Log
  when_over (inl e, log) = log
  when_over (inr t, log) = drop_transport lib uid pgrep succeeds stop_error t log

  with_guard_over :
      (InboundRx : Type 0) (guard : MacOsClaimState)
      (r : TransportError UsbError TransferError ⊎ (Device × Interface × Interface)) (log : Log)
      → when_over (
          nusb_opened lib uid pgrep succeeds stop_error {InboundRx = InboundRx}
            (with_guard lib uid pgrep succeeds stop_error guard r log))
        ≡ drop_claim uid pgrep succeeds stop_error guard log
  unfolding with_guard nusb_opened drop_transport
  with_guard_over InboundRx guard (inl e) log = refl
  with_guard_over InboundRx guard (inr (device, hid, display)) log = refl

  open_transport_over :
      (InboundRx : Type 0) (forced : Bool) (log log₁ : Log) (state : MacOsClaimState)
      → capture_and_suspend uid pgrep succeeds stop_error log ≡ (inr state, log₁)
      → when_over
          (open_transport lib uid pgrep succeeds stop_error {InboundRx = InboundRx} forced log)
        ≡ drop_claim uid pgrep succeeds stop_error state log₁
  unfolding open_transport dext_or_nusb dext_open nusb_open open_claimed
  open_transport_over InboundRx true log log₁ state e =
      rw e (with_guard_over InboundRx state (connect lib log₁) log₁)
  open_transport_over InboundRx false log log₁ state e =
      rw e (with_guard_over InboundRx state (connect lib log₁) log₁)

  -- Opening the transport and dropping it leaves the system as the claim found it, whether the device is
  -- found, opened and claimed or any of these fails: of the processes that were stopped before, those
  -- that the claim did not stop too are still stopped, and no others; and the agent is out only if it was
  -- out before and the claim did not take it out. Conditions: the claim itself does not fail, and at the
  -- drop the signal to continue the process and the bootstrap of the agent succeed.
  pub open_transport-capture_and_suspend :
      (InboundRx : Type 0) (forced : Bool) (log log₁ : Log) (state : MacOsClaimState) (p : ℕ)
      → capture_and_suspend uid pgrep succeeds stop_error log ≡ (inr state, log₁)
      → ((l : Log) → succeeds (kill p sigcont) l ≡ true)
      → Restarts uid pgrep succeeds stop_error
      → let over =
          when_over
            (open_transport lib uid pgrep succeeds stop_error {InboundRx = InboundRx} forced log) in
        (is_stopped p over ≡ (not (has_pid p state.stopped_pids) && is_stopped p log))
        × (is_out uid over ≡ (not state.agent_was_bootable && is_out uid log))
  open_transport-capture_and_suspend InboundRx forced log log₁ state p e continues restarts =
      let ends =
        drop_claim-capture_and_suspend uid pgrep succeeds stop_error log log₁ state p e continues
          restarts in
      let over = open_transport_over InboundRx forced log log₁ state e in
      (ap (is_stopped p) over ∙ ends.1, ap (is_out uid) over ∙ ends.3)
