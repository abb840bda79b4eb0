-- ===== src/Stores/AiStore.antt =====
-- frontend/src/stores/ai-store.ts and frontend/src/types/ai.ts. The contents of messages are lists
-- of code units, since the input is trimmed.
use etl_nexus.Common.{Bool, false, List, [], ◌∷◌, ◌++◌, Text, codes}

pub data Role : Type 0 where
  user assistant : Role

pub record ChatMessage : Type 0 where
  pub role : Role
  pub content : Text

pub record AiState : Type 0 where
  pub greeting : Text
  pub messages : List ChatMessage
  pub is_typing : Bool

abbrev pub said : Text → ChatMessage
said content = record { role = assistant; content = content }

abbrev pub asked : Text → ChatMessage
asked content = record { role = user; content = content }

unfoldable pub default_greeting : Text
default_greeting =
    codes
      "Hello! I am your AI Data Architect. You can ask me about the existing data products or look for a data product that matches your needs. Where would you like to start?"

abbrev pub initial_ai : AiState
initial_ai = record {
  greeting = default_greeting;
  messages = said default_greeting ∷ [];
  is_typing = false;
}

unfoldable pub add_message : ChatMessage → AiState → AiState
add_message msg s = record s { messages = s.messages ++ msg ∷ [] }

unfoldable pub set_typing : Bool → AiState → AiState
set_typing typing s = record s { is_typing = typing }

unfoldable pub clear_history : AiState → AiState
clear_history s = record s { messages = said s.greeting ∷ []; is_typing = false }

-- The conversation with the new greeting if it has only an opening message of the assistant.
unfoldable pub refresh : Text → List ChatMessage → List ChatMessage
refresh text [] = []
refresh text (msg ∷ []) = elim msg.role [ user ↦ msg ∷ [] | assistant ↦ said text ∷ [] ]
refresh text (msg ∷ next ∷ rest) = msg ∷ next ∷ rest

unfoldable pub set_greeting : Text → AiState → AiState
unfolding refresh
set_greeting [] s = s
set_greeting (c ∷ text) s = record s {
  greeting = c ∷ text;
  messages = refresh (c ∷ text) s.messages;
}
