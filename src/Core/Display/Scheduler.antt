-- ===== src/Core/Display/Scheduler.antt =====
-- crates/maschine-core/src/display/mod.rs: the scheduler of one display. The framebuffer's lock makes
-- a change and a flush's encoding single steps. `Notify` keeps one permit.
pub mod Flushes
pub mod Reader
pub mod Places
pub mod Shown
pub mod Updates
use openmk.Prelude.{
  ℕ, zero, suc, ◌/◌, max, Bool, true, false, not, Option, none, some, List, [], ◌∷◌, Outcome, ok,
  ◌>>=◌, map_ok, if◌then◌else◌,
}
use openmk.Proto.Types.{DisplayId}
use openmk.Core.Display.Framebuffer.{Framebuffer, Framebuffer_new, is_dirty}
use openmk.Core.Display.Encoder.{encode_frame}

-- `notify` is whether the permit is there.
pub record DisplayHandle : Type 0 where
  pub id : DisplayId
  pub fb : Framebuffer
  pub notify : Bool

unfoldable pub DisplayHandle_new : DisplayId → DisplayHandle
DisplayHandle_new id = record { id = id; fb = Framebuffer_new; notify = false }

unfoldable pub modify : (Framebuffer → Framebuffer) → DisplayHandle → DisplayHandle
modify f h = record h { fb = f h.fb; notify = true }

-- The period of the tick in microseconds.
unfoldable pub period : ℕ → ℕ
period fps = 1000000 / max fps 1

-- What ends the wait of `select!`.
pub data Wake : Type 0 where
  notified tick : Wake

-- A notification takes the permit; it comes only if there is one.
unfoldable pub wake : Wake → DisplayHandle → Option DisplayHandle
wake notified h = if h.notify then some (record h { notify = false }) else none
wake tick h = some h

-- `payload_opt`, and the framebuffer after it.
unfoldable pub take_payload : DisplayId → Framebuffer → Outcome ⊥ (Option (List ℕ) × Framebuffer)
take_payload id fb =
    if not (is_dirty fb) then ok (none, fb) else map_ok (λ r. (some r.0, r.1)) (encode_frame id fb)

-- `Transport` is the transport's state; a write returns whether it succeeded. A failure is logged, and
-- the loop sleeps, 20 milliseconds, before the next turn.
module _ {Transport : Type 0} (write_display : List ℕ → Transport → Bool × Transport) where
  unfoldable pub write_payload : Option (List ℕ) → Transport → Transport
  write_payload none t = t
  write_payload (some payload) t = (write_display payload t).1

  -- The loop body after the wait.
  unfoldable pub flush : DisplayHandle → Transport → Outcome ⊥ (DisplayHandle × Transport)
  flush h t = do
    (payload_opt, fb) ← take_payload h.id h.fb
    ok (record h { fb = fb }, write_payload payload_opt t)
