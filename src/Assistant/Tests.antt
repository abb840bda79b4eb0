-- ===== src/Assistant/Tests.antt =====
-- One session at the terminal.
use etl_nexus.Common.{◌≡◌, refl, true, some, codes, arith}
use etl_nexus.Assistant.{Terminal, initial_terminal, type_text, handle_submit, failed, on_settled}
use etl_nexus.Stores.AppConfigStore.{initial_config}
use etl_nexus.Assistant.Requests.{submit_call, architect_view, Submits, submit_call-Submits}
use etl_nexus.Assistant.Turns.{
  typed, submitted, settled, opened, and_then, IsOrderly, Session-IsOrderly,
}

abbrev asked_once : Terminal
asked_once = handle_submit (type_text (codes " joins? ") initial_terminal)

one_waits : asked_once.waiting ≡ 1
unfolding handle_submit type_text
one_waits = refl

Session-IsOrderly_example : IsOrderly (on_settled (failed (some "ECONNABORTED")) asked_once)
unfolding handle_submit type_text
Session-IsOrderly_example = Session-IsOrderly (
    and_then
      (and_then (and_then opened (typed (codes " joins? ") initial_terminal))
        (submitted (type_text (codes " joins? ") initial_terminal)))
      (settled (failed (some "ECONNABORTED")) asked_once (omega arith)))

abbrev typed_once : Terminal
typed_once = type_text (codes " joins? ") initial_terminal

button_ready : (architect_view typed_once).button_enabled ≡ true
unfolding architect_view type_text
button_ready = refl

submit_call-Submits_example :
    Submits true initial_config typed_once (submit_call true initial_config typed_once)
submit_call-Submits_example =
    submit_call-Submits true initial_config
      (and_then opened (typed (codes " joins? ") initial_terminal))
