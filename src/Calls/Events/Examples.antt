-- ===== src/Calls/Events/Examples.antt =====
-- The variables of a call about one question.
use circle_core.Prelude.{◌≡◌, ◌&&◌, if◌then◌else◌, ltb}
use circle_core.Text.{codes}
use circle_core.Value.{text, object, Fields, closed, field}
use circle_core.Screening.Results.{blank}
use circle_core.Calls.Examples.{plain}
use circle_core.Calls.Sarvam.{to_structured_data, call_outcome, is_declined, max_questions}
use circle_core.Calls.Events.{structured_of}
use circle_core.Calls.Events.Reads.{told, structured_of-to_structured_data}

abbrev variables : Fields
variables = field "q1_answer" (text (codes " Yes ")) closed

structured_of-to_structured_data_example :
    ((structured_of plain (to_structured_data plain (object variables) 1)).entry 0
      ≡ (if ltb 0 1 && ltb 0 max_questions then told plain variables 0 else blank))
    × ((structured_of plain (to_structured_data plain (object variables) 1)).declined
        ≡ is_declined (call_outcome plain (object variables)))
structured_of-to_structured_data_example = structured_of-to_structured_data plain variables 1 0
