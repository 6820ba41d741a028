-- ===== src/Wire/Phase.antt =====
-- The phase of an object on the wire (api/proto/convert.go).
pub mod RoundTrip
use hyperv_control_plane.Prelude.{
  ℕ, ◌≡◌, refl, sym, ap, ◌∙◌, ◌⊎◌, inl, inr, ℤ, pos, Bool, true, false, Option, none, some, List,
  [], ◌∷◌, map, All, Text, codes, text_eq, if◌then◌else◌,
}
use hyperv_control_plane.Wire.{
  int32, IsInt32, int32_lem, option_int32, map_option, AllOption, or_zero, at_constant, option_back,
  option_back_always, option_onto, list_back, list_back_always, list_onto,
}

pub data PhasePb : Type 0 where
  phase_unspecified_pb : PhasePb
  phase_pending_pb : PhasePb
  phase_progressing_pb : PhasePb
  phase_ready_pb : PhasePb
  phase_degraded_pb : PhasePb
  phase_error_pb : PhasePb

abbrev pub phase_pending : Text
phase_pending = codes "Pending"

abbrev pub phase_progressing : Text
phase_progressing = codes "Progressing"

abbrev pub phase_ready : Text
phase_ready = codes "Ready"

abbrev pub phase_degraded : Text
phase_degraded = codes "Degraded"

abbrev pub phase_error : Text
phase_error = codes "Error"

unfoldable pub phase_to_proto : Text → PhasePb
unfolding text_eq
phase_to_proto s =
    if text_eq s phase_pending
    then phase_pending_pb
    else if text_eq s phase_progressing
    then phase_progressing_pb
    else if text_eq s phase_ready
    then phase_ready_pb
    else if text_eq s phase_degraded
    then phase_degraded_pb
    else if text_eq s phase_error
    then phase_error_pb
    else phase_unspecified_pb

unfoldable pub phase_from_proto : PhasePb → Text
phase_from_proto phase_unspecified_pb = []
phase_from_proto phase_pending_pb = phase_pending
phase_from_proto phase_progressing_pb = phase_progressing
phase_from_proto phase_ready_pb = phase_ready
phase_from_proto phase_degraded_pb = phase_degraded
phase_from_proto phase_error_pb = phase_error
