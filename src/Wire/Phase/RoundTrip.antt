-- ===== src/Wire/Phase/RoundTrip.antt =====
-- A phase that is sent is the one that arrives (api/proto/convert.go).
use hyperv_control_plane.Prelude.{◌≡◌, refl, ◌⊎◌, inl, inr, [], Text, text_eq}
use hyperv_control_plane.Wire.{at_constant}
use hyperv_control_plane.Wire.Phase.{
  phase_pending, phase_progressing, phase_ready, phase_degraded, phase_error, phase_to_proto,
  phase_from_proto,
}

abbrev pub IsPhase : Text → Type 0
IsPhase s =
    (s ≡ [])
    ⊎ (s ≡ phase_pending)
    ⊎ (s ≡ phase_progressing)
    ⊎ (s ≡ phase_ready)
    ⊎ (s ≡ phase_degraded)
    ⊎ (s ≡ phase_error)

pub phase_from_proto-phase_to_proto :
    (s : Text) → IsPhase s → phase_from_proto (phase_to_proto s) ≡ s
unfolding phase_to_proto phase_from_proto text_eq
phase_from_proto-phase_to_proto s (inl e) =
    at_constant (λ t. phase_from_proto (phase_to_proto t)) e refl
phase_from_proto-phase_to_proto s (inr (inl e)) =
    at_constant (λ t. phase_from_proto (phase_to_proto t)) e refl
phase_from_proto-phase_to_proto s (inr (inr (inl e))) =
    at_constant (λ t. phase_from_proto (phase_to_proto t)) e refl
phase_from_proto-phase_to_proto s (inr (inr (inr (inl e)))) =
    at_constant (λ t. phase_from_proto (phase_to_proto t)) e refl
phase_from_proto-phase_to_proto s (inr (inr (inr (inr (inl e))))) =
    at_constant (λ t. phase_from_proto (phase_to_proto t)) e refl
phase_from_proto-phase_to_proto s (inr (inr (inr (inr (inr e))))) =
    at_constant (λ t. phase_from_proto (phase_to_proto t)) e refl
