-- ===== src/File/Lifetime.antt =====
-- The life of a file transfer: whatever the application answers and whatever the peer sends, the file is
-- open exactly while a transfer is live, each open of the application is followed by its close, and the start and
-- end of a transfer are reported in pairs.
pub mod Engine
pub mod Sending
pub mod Receiving
pub mod Runs
use libosdp.Common.{
  ℕ, ◌+◌, ◌≡◌, refl, sym, ap, ◌∙◌, Bool, Bool-cases, true, false, not, ◌&&◌, Option, none, some,
  List, [], ◌∷◌, ◌++◌, arith, inl, inr, if◌then◌else◌, if_both,
}
use libosdp.Multipart.{Multipart, State, Phase, start, is_active_state}
use libosdp.Multipart.Lifecycle.{emit_start, finish, reset}
use libosdp.Multipart.Lifecycle.Events.{reports}
use libosdp.File.{
  File, Plane, Outcome, outcome_value, is_rebooting, app_of, with_app, state_reset, close_if_open,
  end_engine, transition_done,
}
use libosdp.File.Lifetime.Engine.{IsPaired, emit_start-lem, finish-lem}

abbrev pub held : Bool → ℕ
held is_open = if is_open then 1 else 0

module _ {A : Type 0} where
  abbrev pub is_live : File A → Bool
  is_live f = is_active_state f.mp.state

  -- The number of ends that were reported.
  abbrev pub ends : File A → ℕ
  ends f = reports Phase.done f.mp.events

  -- Each open of the application was followed by its close, but for the file that is open now.
  abbrev pub IsBalanced : File A → Type 0
  IsBalanced f = f.opens ≡ f.closes + held f.is_open

  -- Whether a file is open, and how many were opened and closed.
  abbrev pub files_of : File A → Bool × ℕ × ℕ
  files_of f = (f.is_open, f.opens, f.closes)

  pub record IsConsistent (f : File A) : Type 0 where
    pub handle : f.is_open ≡ is_live f
    pub paired : IsPaired f.mp
    pub settled : f.in_terminal ≡ false
    pub balanced : IsBalanced f

  pub state_reset-IsConsistent :
      (f : File A)
      → reports start f.mp.events ≡ reports Phase.done f.mp.events
      → f.opens ≡ f.closes
      → IsConsistent (state_reset f)
        × (is_live (state_reset f) ≡ false)
        × (ends (state_reset f) ≡ ends f)
  unfolding state_reset reset
  state_reset-IsConsistent f e o = (
    record {
      handle = refl;
      paired = record { listening = refl; balance = omega (arith, e) };
      settled = refl;
      balanced = omega (arith, o);
    },
    refl,
    refl,
  )

  close_if_open-events : (f : File A) → (close_if_open f).mp.events ≡ f.mp.events
  unfolding close_if_open
  close_if_open-events f = ground arith

  close_if_open-balanced :
      (f : File A) → IsBalanced f → (close_if_open f).opens ≡ (close_if_open f).closes
  unfolding close_if_open
  close_if_open-balanced f h = elim (Bool-cases f.is_open) [
    | inl k ↦ rw k (h ∙ ap (λ (b : Bool). f.closes + held b) k)
    | inr k ↦ rw k (h ∙ ap (λ (b : Bool). f.closes + held b) k ∙ omega arith)
  ]

  -- How a live transfer ends: it is reported once, nothing is left live, and the application's close was
  -- called for each open of it that succeeded, if that held but for the file that is open.
  pub transition_done-lem :
      (f : File A) (outcome : Outcome)
      → is_live f ≡ true
      → IsPaired f.mp
      → IsBalanced f
      → IsConsistent (transition_done f outcome)
        × (is_live (transition_done f outcome) ≡ false)
        × (ends (transition_done f outcome) ≡ ends f + 1)
        × ((transition_done f outcome).opens ≡ (transition_done f outcome).closes)
  unfolding transition_done end_engine state_reset
  transition_done-lem f outcome a v o =
      let (v1, state1, done1, marked1) = emit_start-lem f.mp a v in
      let (l, even, once) =
        finish-lem (emit_start f.mp) (outcome_value outcome) (ground (arith, state1, a)) v1
          marked1 in
      let closed = close_if_open (end_engine f outcome) in
      let events = close_if_open-events (end_engine f outcome) in
      let before =
        if f.cp_mode && is_rebooting outcome
        then record closed { offline_request = true }
        else closed in
      let shut : before.opens ≡ before.closes =
        if_both (λ (g : File A). g.opens ≡ g.closes) (f.cp_mode && is_rebooting outcome)
          (record closed { offline_request = true }) closed
          (close_if_open-balanced (end_engine f outcome) o)
          (close_if_open-balanced (end_engine f outcome) o) in
      let same : before.mp.events ≡ (finish (emit_start f.mp) (outcome_value outcome)).events =
        ground (arith, events) in
      let r =
        state_reset-IsConsistent before
          (ap (reports start) same ∙ even ∙ sym (ap (reports Phase.done) same)) shut in
      (r.0, r.1, r.2 ∙ ap (reports Phase.done) same ∙ omega (arith, once, done1), shut)
