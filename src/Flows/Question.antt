-- ===== src/Flows/Question.antt =====
-- `EnforceSingleQuestion`, `StripFlowStateBlock` and `GetStatus`'s default of
-- internal/agent/flows/api_integration.go, over the bytes of the content.
pub mod Single
use go_saas_api.Common.{
  ℕ, zero, suc, ◌+◌, ◌-◌, Bool, ◌||◌, Option, none, some, [], ◌∷◌, String, leb, ◌==◌, nat_eq,
  string_eq, if◌then◌else◌, get_or, take, drop,
}
use go_saas_api.Common.Bytes.{Bytes, index_of, count_byte, trim_space}

-- "---FLOW_STATE---"
abbrev pub flow_state_marker : Bytes
flow_state_marker =
    b'-' ∷ b'-' ∷ b'-' ∷ b'F' ∷ b'L' ∷ b'O' ∷ b'W' ∷ b'_' ∷ b'S' ∷ b'T' ∷ b'A' ∷ b'T' ∷ b'E' ∷ b'-'
    ∷ b'-' ∷ b'-' ∷ []

abbrev pub question_mark : ℕ
question_mark = b'?'

-- The content before the marker, all of it if there is none.
unfoldable pub before : Option ℕ → Bytes → Bytes
before none content = content
before (some idx) content = take idx content

unfoldable pub strip_flow_state_block : Bytes → Bytes
strip_flow_state_block content = elim (index_of flow_state_marker content) [
  | none ↦ content
  | some idx ↦ trim_space (take idx content)
]

is_boundary : ℕ → Bool
is_boundary b = b == 10 || b == b'.' || b == b'!'

-- The loop over `i` from `firstQ + rounds` down to `firstQ + 1`; the cutoff is `i + 1`.
boundary_from : Bytes → ℕ → ℕ → Option ℕ
boundary_from content first_q zero = none
boundary_from content first_q (suc rounds) =
    let rest = boundary_from content first_q rounds in
    if is_boundary (get_or content (first_q + suc rounds) 0)
    then some (first_q + suc rounds + 1)
    else rest

or_else : ℕ → Option ℕ → ℕ
or_else d none = d
or_else d (some c) = c

-- The position at which a content with questions at `first_q` and `second_q` is cut.
cutoff_of : Bytes → ℕ → ℕ → ℕ
unfolding is_boundary boundary_from or_else
cutoff_of content first_q second_q =
    let cutoff = or_else second_q (boundary_from content first_q (second_q - 1 - first_q)) in
    if cutoff == second_q then first_q + 1 else cutoff

cut_after : Bytes → ℕ → Option ℕ → Bytes
cut_after content first_q none = content
cut_after content first_q (some off) =
    trim_space (take (cutoff_of content first_q (off + (first_q + 1))) content)

cut_at_second : Bytes → Option ℕ → Bytes
cut_at_second content none = content
cut_at_second content (some first_q) =
    cut_after content first_q (index_of (question_mark ∷ []) (drop (first_q + 1) content))

unfoldable pub enforce_single_question : Bytes → String → Bytes
unfolding cut_at_second cut_after cutoff_of
enforce_single_question content status =
    let cut = cut_at_second content (index_of (question_mark ∷ []) content) in
    if status == "collecting"
    then if leb (count_byte question_mark content) 1 then content else cut
    else content
