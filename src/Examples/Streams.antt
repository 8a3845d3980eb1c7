-- ===== src/Examples/Streams.antt =====
-- internal/agent: an answer whose state block begins in one chunk and ends in the next.
use go_saas_api.Common.{◌≡◌, ◌≤◌, refl, false, List, [], ◌∷◌, ◌++◌, take, drop}
use go_saas_api.Common.Bytes.{Bytes, index_of, count_byte}
use go_saas_api.Flows.Question.{flow_state_marker, before, enforce_single_question, question_mark}
use go_saas_api.Flows.Question.Single.{enforce_single_question_lem}
use go_saas_api.Agent.Sanitizer.{fresh, process_all, raw_content, stream, visible_content}
use go_saas_api.Agent.Sanitizer.Stream.{concat, stream-fresh}
use go_saas_api.Agent.Sanitizer.Raw.{raw_content-marker}

-- "Hi. A? B?"
abbrev two_questions : Bytes
two_questions = b'H' ∷ b'i' ∷ b'.' ∷ b' ' ∷ b'A' ∷ b'?' ∷ b' ' ∷ b'B' ∷ b'?' ∷ []

abbrev first_chunk : Bytes
first_chunk = two_questions ++ take 5 flow_state_marker

abbrev second_chunk : Bytes
second_chunk = drop 5 flow_state_marker ++ b'{' ∷ []

abbrev third_chunk : Bytes
third_chunk = b'}' ∷ []

abbrev chunks : List Bytes
chunks = first_chunk ∷ second_chunk ∷ third_chunk ∷ []

-- The second chunk completes the marker at position 9: only the text before it is sent.
stream-fresh_example :
    (stream chunks (fresh false) ≡ two_questions)
    × (visible_content (process_all chunks (fresh false)).1 ≡ two_questions)
unfolding concat index_of before
stream-fresh_example = stream-fresh chunks

-- The closing brace of the state block is lost.
raw_content-marker_example :
    raw_content (process_all chunks (fresh false)).1 ≡ concat (first_chunk ∷ []) ++ second_chunk
unfolding concat index_of
raw_content-marker_example =
    raw_content-marker (first_chunk ∷ []) (third_chunk ∷ []) second_chunk 9 refl refl

-- The cut leaves "Hi. A?".
enforce_single_question_example :
    (count_byte question_mark (enforce_single_question two_questions "collecting") ≤ 1)
    × (enforce_single_question (enforce_single_question two_questions "collecting") "collecting"
        ≡ enforce_single_question two_questions "collecting")
enforce_single_question_example = enforce_single_question_lem two_questions
