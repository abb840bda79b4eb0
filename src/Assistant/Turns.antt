-- ===== src/Assistant/Turns.antt =====
-- The conversation takes turns.
use etl_nexus.Common.{
  ℕ, ◌<◌, Bool, true, false, List, [], ◌∷◌, ◌++◌, if◌then◌else◌, Text, ◌≡◌, ◌≢◌, refl, arith, trim,
  if-holds, subst,
}
use etl_nexus.Stores.AiStore.{
  ChatMessage, user, assistant, asked, said, set_greeting, refresh, default_greeting,
}
use etl_nexus.Assistant.{
  Terminal, initial_terminal, type_text, handle_send, send_trimmed, handle_submit, Outcome,
  answered, failed, reply_of, on_settled, on_clear,
}

-- What happens at the terminal, with the guards of the events: a call settles only while one waits.
-- The button that clears the history is pressed while no answer is awaited.
pub data TerminalStep : Terminal → Terminal → Type 0 where
  typed : (text : Text) (w : Terminal) → TerminalStep w (type_text text w)
  submitted : (w : Terminal) → TerminalStep w (handle_submit w)
  settled :
      (outcome : Outcome) (w : Terminal) → 0 < w.waiting → TerminalStep w (on_settled outcome w)
  cleared : (w : Terminal) → w.waiting ≡ 0 → TerminalStep w (on_clear w)
  greeted :
      (text : Text) (w : Terminal) → TerminalStep w (record w { store = set_greeting text w.store })

pub data Session : Terminal → Type 0 where
  opened : Session initial_terminal
  and_then : {v w : Terminal} → Session v → TerminalStep v w → Session w

-- the turns after an opening message: each question has text and is followed by an answer, but for
-- the last one while the answer is awaited
abbrev pub IsTurns : Bool → List ChatMessage → Type 0
IsTurns awaited [] = awaited ≡ false
IsTurns awaited (question ∷ []) =
    (awaited ≡ true) × ((question.role ≡ user) × (question.content ≢ []))
IsTurns awaited (question ∷ answer ∷ rest) =
    ((question.role ≡ user) × (question.content ≢ []))
    × ((answer.role ≡ assistant) × IsTurns awaited rest)

abbrev pub IsConversation : Bool → List ChatMessage → Type 0
IsConversation awaited [] = ⊥
IsConversation awaited (opening ∷ turns) = (opening.role ≡ assistant) × IsTurns awaited turns

-- At most one answer is awaited, and the input is closed just then.
pub record IsOrderly (w : Terminal) : Type 0 where
  pub turns : IsConversation w.store.is_typing w.store.messages
  pub calls : w.waiting ≡ (if w.store.is_typing then 1 else 0)

ask-IsTurns :
    (c : ℕ) (text : Text) (turns : List ChatMessage)
    → IsTurns false turns
    → IsTurns true (turns ++ asked (c ∷ text) ∷ [])
ask-IsTurns c text [] h = (refl, (refl, λ e. cc))
ask-IsTurns c text (question ∷ []) (e, h) = absurd (cc)
ask-IsTurns c text (question ∷ answer ∷ rest) (q, (a, h)) = (q, (a, ask-IsTurns c text rest h))

answer-IsTurns :
    (content : Text) (turns : List ChatMessage)
    → IsTurns true turns
    → IsTurns false (turns ++ said content ∷ [])
answer-IsTurns content [] h = absurd (cc)
answer-IsTurns content (question ∷ []) (e, h) = (h, (refl, refl))
answer-IsTurns content (question ∷ answer ∷ rest) (q, (a, h)) =
    (q, (a, answer-IsTurns content rest h))

pub ask-IsConversation :
    (c : ℕ) (text : Text) (messages : List ChatMessage)
    → IsConversation false messages
    → IsConversation true (messages ++ asked (c ∷ text) ∷ [])
ask-IsConversation c text [] h = absurd h
ask-IsConversation c text (opening ∷ turns) (o, h) = (o, ask-IsTurns c text turns h)

answer-IsConversation :
    (content : Text) (messages : List ChatMessage)
    → IsConversation true messages
    → IsConversation false (messages ++ said content ∷ [])
answer-IsConversation content [] h = absurd h
answer-IsConversation content (opening ∷ turns) (o, h) = (o, answer-IsTurns content turns h)

refresh-IsConversation :
    (awaited : Bool) (text : Text) (messages : List ChatMessage)
    → IsConversation awaited messages
    → IsConversation awaited (refresh text messages)
unfolding refresh
refresh-IsConversation awaited text [] h = h
refresh-IsConversation awaited text (opening ∷ []) (o, h) = ground arith
refresh-IsConversation awaited text (opening ∷ next ∷ rest) h = h

set_greeting-IsOrderly :
    (text : Text) (w : Terminal)
    → IsOrderly w
    → IsOrderly (record w { store = set_greeting text w.store })
unfolding set_greeting
set_greeting-IsOrderly [] w h = h
set_greeting-IsOrderly (c ∷ text) w h = record {
  turns = refresh-IsConversation _ (c ∷ text) w.store.messages h.turns;
  calls = h.calls;
}

sent-IsOrderly :
    (c : ℕ) (text : Text) (w : Terminal)
    → w.store.is_typing ≡ false
    → IsOrderly w
    → IsOrderly (record (handle_send (c ∷ text) w) { input = [] })
unfolding handle_send
sent-IsOrderly c text w idle h = record {
  turns =
      ask-IsConversation c text w.store.messages
        (subst (λ b. IsConversation b w.store.messages) idle h.turns);
  calls = let calls = h.calls in let none_waits : w.waiting ≡ 0 = ground arith in omega arith;
}

send_trimmed-IsOrderly :
    (text : Text) (w : Terminal) → IsOrderly w → IsOrderly (send_trimmed text w)
unfolding send_trimmed
send_trimmed-IsOrderly [] w h = h
send_trimmed-IsOrderly (c ∷ text) w h =
    if-holds IsOrderly w.store.is_typing (λ _. h) (λ idle. sent-IsOrderly c text w idle h)

reply_of-said : (outcome : Outcome) → (content : Text) × (reply_of outcome ≡ said content)
unfolding reply_of
reply_of-said (answered content) = (content, refl)
reply_of-said (failed code) = (_, refl)

on_settled-IsOrderly :
    (outcome : Outcome) (w : Terminal)
    → 0 < w.waiting
    → IsOrderly w
    → IsOrderly (on_settled outcome w)
unfolding on_settled
on_settled-IsOrderly outcome w some_call h =
    let (content, reply) = reply_of-said outcome in
    let calls = h.calls in
    let typing : w.store.is_typing ≡ true = ground arith in
    let one_waits : w.waiting ≡ 1 = ground arith in
    record {
      turns = rw reply (
          answer-IsConversation content w.store.messages
            (subst (λ b. IsConversation b w.store.messages) typing h.turns));
      calls = omega arith;
    }

TerminalStep-IsOrderly : {v w : Terminal} → TerminalStep v w → IsOrderly v → IsOrderly w
unfolding type_text handle_submit on_clear
TerminalStep-IsOrderly (typed text w) h = record { turns = h.turns; calls = h.calls }
TerminalStep-IsOrderly (submitted w) h = send_trimmed-IsOrderly (trim w.input) w h
TerminalStep-IsOrderly (settled outcome w some_call) h = on_settled-IsOrderly outcome w some_call h
TerminalStep-IsOrderly (cleared w idle) h = ground arith
TerminalStep-IsOrderly (greeted text w) h = set_greeting-IsOrderly text w h

-- If the history is cleared only while no answer is awaited, then whatever is typed, submitted,
-- answered or refused, each question has text and gets one answer before the next is sent, after an
-- opening message of the assistant, and the indicator is shown just while a call is not settled.
pub Session-IsOrderly : {w : Terminal} → Session w → IsOrderly w
unfolding default_greeting
Session-IsOrderly opened = record { turns = (refl, refl); calls = refl }
Session-IsOrderly (and_then before step) = TerminalStep-IsOrderly step (Session-IsOrderly before)

-- If the history is cleared while an answer is awaited, the answer follows the greeting without a
-- question.
pub on_settled-on_clear :
    (outcome : Outcome) (w : Terminal)
    → (on_settled outcome (on_clear w)).store.messages
      ≡ said w.store.greeting ∷ reply_of outcome ∷ []
unfolding on_settled on_clear
on_settled-on_clear outcome w = refl
