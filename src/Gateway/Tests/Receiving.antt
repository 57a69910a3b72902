-- ===== src/Gateway/Tests/Receiving.antt =====
-- gateway.recv and the input of a chat at concrete inputs.
use zoa.Base.{◌*◌, ◌≡◌, refl, true, some, List, [], ◌∷◌}
use zoa.Base.Int.{pos}
use zoa.Base.Text.{codes, trim, trim_left, is_space, decimal, decimal_digits}
use zoa.Base.Stamp.{second}
use zoa.Base.Sql.{ok, exec, query}
use zoa.Gateway.Tables.{string, whole, real, Fields}
use zoa.Gateway.Inputs.{string_input, int_input, float_input, pump_input}
use zoa.Gateway.Inputs.Chat.{Models, chat_settings}
use zoa.Gateway.Inputs.Settings.{map_ok, trimmed_cwd, chat_settings-pump_input}
use zoa.Gateway.History.{Call, claim}
use zoa.Gateway.Inbound.{pending_count}
use zoa.Gateway.Slash.{first_word, command_of, render_command, render_slash_response}
use zoa.Tools.Bytes.{spaces, word_length, skip_words, trim_space}
use zoa.Gateway.Tests.Data.{start}

abbrev call_input : Fields
call_input =
    (codes "message", string (codes "hello"))
    ∷ (codes "session", string (codes " main"))
    ∷ (codes "cwd", string (codes " /work"))
    ∷ (codes "max_turns", real (pos 7) 1)
    ∷ (codes "timeout_sec", whole (pos 0))
    ∷ []

abbrev stored_input : Fields
stored_input =
    (codes "cwd", string (codes "/work"))
    ∷ (codes "max_turns", whole (pos 3))
    ∷ (codes "timeout_sec", whole (pos 0))
    ∷ []

stored : pump_input call_input ≡ ok stored_input
unfolding pump_input string_input int_input float_input trim trim_left is_space
stored = refl

abbrev models : Models
models = record {
  default_model = codes "opus";
  default_turns = 100;
  default_temperature = (pos 1, 1);
  is_supported = λ _. true;
  credential = λ _. some (codes "key");
  missing_credential = λ _. [];
  quoted = λ s. s;
}

chat_settings-pump_input_example :
    chat_settings models stored_input ≡ map_ok trimmed_cwd (chat_settings models call_input)
chat_settings-pump_input_example = chat_settings-pump_input models call_input stored_input stored

-- What the spawned pump does until recv counts: it claims the head of the queue.
abbrev pumping : List Call
pumping = claim (codes "main") (8 * second) (pos (120 * second)) ∷ []

-- The queue has two waiting messages.
queue_counted :
    (render_slash_response
      (record { tables = []; faults = [] })
      (λ t. t.rest)
      []
      []
      (codes "main")
      (codes " /queue now")
      start).0
    ≡ ok (codes "Queue has 2 pending message(s).")
unfolding render_slash_response render_command command_of first_word word_length skip_words spaces
    trim_space pending_count query exec decimal decimal_digits
queue_counted = refl
