-- ===== src/Assistant.antt =====
-- frontend/src/components/ai-terminal and frontend/src/hooks/use-ai-chat.ts: the input, the
-- conversation and the calls that wait for an answer. What a call sends is in Requests.
mod Turns
mod Requests
mod Tests
use etl_nexus.Common.{
  ℕ, ◌+◌, ◌-◌, Bool, true, false, String, List, [], ◌∷◌, Option, none, some, if◌then◌else◌, Text,
  codes, trim, ◌===◌,
}
use etl_nexus.Stores.AiStore.{
  AiState, initial_ai, ChatMessage, asked, said, add_message, set_typing, clear_history,
}

-- The store, the value of the input, and the number of calls that are not settled.
pub record Terminal : Type 0 where
  pub store : AiState
  pub input : Text
  pub waiting : ℕ

abbrev pub initial_terminal : Terminal
initial_terminal = record { store = initial_ai; input = []; waiting = 0 }

-- the `onChange` of the input
unfoldable pub type_text : Text → Terminal → Terminal
type_text text w = record w { input = text }

-- `handleSend` of AIArchitectView, and `onMutate` of the mutation it starts
unfoldable pub handle_send : Text → Terminal → Terminal
unfolding add_message set_typing
handle_send text w = record w {
  store = set_typing true (add_message (asked text) w.store);
  waiting = w.waiting + 1;
}

-- the input sends what is left after trimming
unfoldable pub send_trimmed : Text → Terminal → Terminal
unfolding handle_send
send_trimmed [] w = w
send_trimmed (c ∷ text) w =
    if w.store.is_typing then w else record (handle_send (c ∷ text) w) { input = [] }

-- `handleSubmit` of ChatInput
unfoldable pub handle_submit : Terminal → Terminal
unfolding send_trimmed trim
handle_submit w = send_trimmed (trim w.input) w

-- How a call ends: with the content of the answer, or with the code of the error if it has one.
pub data Outcome : Type 0 where
  answered : Text → Outcome
  failed : Option String → Outcome

abbrev too_long : Text
too_long =
    codes
      "The Architect took too long to respond and the request timed out. Try a more specific question, or raise AI_REQUEST_TIMEOUT_SECONDS / the API proxy timeout."

abbrev severed : Text
severed = codes "Connection to Architect Core severed."

unfoldable pub error_content : Option String → Text
error_content none = severed
error_content (some code) = if code === "ECONNABORTED" then too_long else severed

unfoldable pub reply_of : Outcome → ChatMessage
unfolding error_content
reply_of (answered content) = said content
reply_of (failed code) = said (error_content code)

-- `onSuccess` or `onError`, and `onSettled`
unfoldable pub on_settled : Outcome → Terminal → Terminal
unfolding reply_of add_message set_typing
on_settled outcome w = record w {
  store = set_typing false (add_message (reply_of outcome) w.store);
  waiting = w.waiting - 1;
}

-- the button of the header
unfoldable pub on_clear : Terminal → Terminal
unfolding clear_history
on_clear w = record w { store = clear_history w.store }
