-- ===== src/Assistant/Requests.antt =====
-- frontend/src/api/ai.ts and `mutationFn` of frontend/src/hooks/use-ai-chat.ts: what a question sends
-- to the server; and what AIArchitectView.tsx, ChatMessage.tsx and ChatInput.tsx show.
use etl_nexus.Common.{
  ℕ, Bool, true, false, not, ◌||◌, List, [], ◌∷◌, ◌++◌, map, Option, none, some, if◌then◌else◌,
  Text, String, trim, length, ltb, ◌≡◌, ◌≢◌, refl, subst, arith, append-nil, if-holds, ap, sym, ◌∙◌,
}
use etl_nexus.Stores.AiStore.{Role, user, assistant, ChatMessage, asked, add_message}
use etl_nexus.Stores.AppConfigStore.{AppConfig}
use etl_nexus.Assistant.{Terminal, handle_send, send_trimmed, handle_submit}
use etl_nexus.Assistant.Turns.{
  Session, IsConversation, ask-IsConversation, Session-IsOrderly, IsOrderly,
}

-- `AIChatRequest`
pub record AiChatRequest : Type 0 where
  pub message : Text
  pub history : List ChatMessage

-- the call of `apiClient.post`
pub record AiCall : Type 0 where
  pub url : String
  pub body : AiChatRequest
  pub timeout : ℕ

unfoldable pub send_ai_message : AppConfig → AiChatRequest → AiCall
send_ai_message config request = record {
  url = "/ai/chat";
  body = request;
  timeout = config.ai_request_timeout_ms;
}

-- `mutationFn` of a render with these messages
unfoldable pub mutation_fn : AppConfig → List ChatMessage → Text → AiCall
unfolding send_ai_message
mutation_fn config messages prompt =
    send_ai_message config (record { message = prompt; history = messages })

-- The messages of the render whose `mutationFn` is run. `rendered` says whether the query library
-- has the options of the render that follows the question already, or of the one before.
abbrev seen_messages : Bool → Text → Terminal → List ChatMessage
seen_messages rendered text w =
    if rendered then (handle_send text w).store.messages else w.store.messages

-- the call that `handleSubmit` leads to, if it sends
unfoldable pub call_for : Bool → AppConfig → Text → Terminal → Option AiCall
unfolding mutation_fn handle_send
call_for rendered config [] w = none
call_for rendered config (c ∷ text) w =
    if w.store.is_typing
    then none
    else some (mutation_fn config (seen_messages rendered (c ∷ text) w) (c ∷ text))

unfoldable pub submit_call : Bool → AppConfig → Terminal → Option AiCall
unfolding call_for trim
submit_call rendered config w = call_for rendered config (trim w.input) w

-- ChatMessage: on which side, and whether the content is Markdown
pub record Bubble : Type 0 where
  pub at_end : Bool
  pub markdown : Bool
  pub content : Text

abbrev pub is_user : Role → Bool
is_user user = true
is_user assistant = false

unfoldable pub bubble : ChatMessage → Bubble
bubble msg = record {
  at_end = is_user msg.role;
  markdown = not (is_user msg.role);
  content = msg.content;
}

-- AIArchitectView
pub record ArchitectView : Type 0 where
  pub bubbles : List Bubble
  pub typing_indicator : Bool
  pub input : Text
  pub input_enabled : Bool
  pub button_enabled : Bool

unfoldable pub architect_view : Terminal → ArchitectView
unfolding bubble trim
architect_view w = record {
  bubbles = map bubble w.store.messages;
  typing_indicator = w.store.is_typing;
  input = w.input;
  input_enabled = not w.store.is_typing;
  button_enabled = not (w.store.is_typing || not (ltb 0 (length (trim w.input))));
}

abbrev question : Bool → Text → List ChatMessage
question true text = asked text ∷ []
question false text = []

-- The question is what was typed, the history the conversation before it, which goes on with the
-- question itself where the next render came first; the terminal awaits an answer.
pub record IsAsked (rendered : Bool) (config : AppConfig) (w : Terminal) (call : AiCall)
    : Type 0 where
  pub message : call.body.message ≡ trim w.input
  pub spoken : call.body.message ≢ []
  pub before : IsConversation false w.store.messages
  pub history : call.body.history ≡ w.store.messages ++ question rendered call.body.message
  pub orderly : IsConversation rendered call.body.history
  pub timeout : call.timeout ≡ config.ai_request_timeout_ms
  pub conversation :
      (handle_submit w).store.messages ≡ w.store.messages ++ asked call.body.message ∷ []
  pub awaited : (handle_submit w).waiting ≡ 1

-- What a press of the button does: nothing where it cannot be pressed, else one call.
pub data Submits (rendered : Bool) (config : AppConfig) (w : Terminal)
    : Option AiCall → Type 0 where
  ignored :
      (architect_view w).button_enabled ≡ false
      → handle_submit w ≡ w
      → Submits rendered config w none
  sent :
      (call : AiCall)
      → (architect_view w).button_enabled ≡ true
      → IsAsked rendered config w call
      → Submits rendered config w (some call)

module _ (w : Terminal) (text : Text) (trimmed : trim w.input ≡ text) where
  button_for :
      (architect_view w).button_enabled ≡ not (w.store.is_typing || not (ltb 0 (length text)))
  unfolding architect_view
  button_for = ap (λ t. not (w.store.is_typing || not (ltb 0 (length t)))) trimmed

  submit_for : handle_submit w ≡ send_trimmed text w
  unfolding handle_submit
  submit_for = ap (λ t. send_trimmed t w) trimmed

seen-orderly :
    (rendered : Bool) (c : ℕ) (text : Text) (w : Terminal)
    → IsConversation false w.store.messages
    → (seen_messages rendered (c ∷ text) w ≡ w.store.messages ++ question rendered (c ∷ text))
      × IsConversation rendered (seen_messages rendered (c ∷ text) w)
unfolding handle_send add_message
seen-orderly true c text w h = (refl, ask-IsConversation c text w.store.messages h)
seen-orderly false c text w h = (sym (append-nil w.store.messages), h)

submitted :
    (w : Terminal) (c : ℕ) (text : Text)
    → trim w.input ≡ c ∷ text
    → w.store.is_typing ≡ false
    → handle_submit w ≡ record (handle_send (c ∷ text) w) { input = [] }
unfolding send_trimmed
submitted w c text trimmed idle = rw (submit_for w (c ∷ text) trimmed, idle) refl

call-IsAsked :
    (rendered : Bool) (config : AppConfig) (w : Terminal) (c : ℕ) (text : Text)
    → trim w.input ≡ c ∷ text
    → w.store.is_typing ≡ false
    → IsOrderly w
    → IsAsked rendered config w
        (mutation_fn config (seen_messages rendered (c ∷ text) w) (c ∷ text))
unfolding mutation_fn send_ai_message handle_send add_message
call-IsAsked rendered config w c text trimmed idle h =
    let before = subst (λ b. IsConversation b w.store.messages) idle h.turns in
    let (history, orderly) = seen-orderly rendered c text w before in
    let calls = h.calls in
    let next = submitted w c text trimmed idle in
    record {
      message = sym trimmed;
      spoken = λ e. cc;
      before = before;
      history = history;
      orderly = orderly;
      timeout = refl;
      conversation = ap (λ v. v.store.messages) next;
      awaited = ap (λ v. v.waiting) next ∙ (ground arith);
    }

call_for-Submits :
    (rendered : Bool) (config : AppConfig) (w : Terminal) (text : Text)
    → trim w.input ≡ text
    → IsOrderly w
    → Submits rendered config w (call_for rendered config text w)
unfolding call_for send_trimmed
call_for-Submits rendered config w [] trimmed h =
    ignored (ground (arith, button_for w [] trimmed)) (submit_for w [] trimmed)
call_for-Submits rendered config w (c ∷ text) trimmed h =
    let button = button_for w (c ∷ text) trimmed in
    let next = submit_for w (c ∷ text) trimmed in
    if-holds (Submits rendered config w) w.store.is_typing
      (λ awaiting. ignored (ground arith) (ground arith))
      (λ idle. sent _ (ground arith) (call-IsAsked rendered config w c text trimmed idle h))

-- At any moment of a session in which the history is cleared only while no answer is awaited, a
-- submission is ignored exactly where the button is disabled, because
-- nothing was typed or an answer is awaited. Else one call is sent, with the time limit of the
-- settings: its question is what was typed, trimmed, and its history an orderly conversation, which
-- holds the question as its last message exactly if the query library has rendered again before.
pub submit_call-Submits :
    (rendered : Bool) (config : AppConfig) {w : Terminal}
    → Session w
    → Submits rendered config w (submit_call rendered config w)
unfolding submit_call
submit_call-Submits rendered config {w} session =
    call_for-Submits rendered config w (trim w.input) refl (Session-IsOrderly session)
