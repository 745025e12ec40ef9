-- ===== src/Llm/Copilot/Tests.antt =====
-- A copilot that says what it was told last.

use xbottrader.Llm.Copilot.{chat, copilot_chat}
use xbottrader.Api.Requests.{user, ChatMessage, CopilotChatRequest, check_copilot_chat}
use xbottrader.Api.{answer, http_error}
use xbottrader.Prelude.{length, Result, ok, ℕ, String, ◌≡◌, refl, some, List, [], ◌∷◌}

abbrev said_last : List ChatMessage → String
said_last [] = ""
said_last (m ∷ []) = m.content
said_last (m ∷ n ∷ ms) = said_last (n ∷ ms)

abbrev echo : List ChatMessage → String → Result (String × List (String × ℕ))
echo turns model = ok (said_last turns, ("input_tokens", length turns) ∷ [])

abbrev question : CopilotChatRequest
question = record {
  messages = record { role = user; content = "why?" } ∷ [];
  context = some "flat";
}

with_context :
    copilot_chat echo "m" question
    ≡ answer (record { reply = "why?"; usage = ("input_tokens", 2) ∷ [] })
unfolding copilot_chat chat check_copilot_chat
with_context = refl

nothing_said :
    copilot_chat echo "m" (record question { messages = [] }) ≡ http_error 422 "at least 1 item"
unfolding copilot_chat check_copilot_chat
nothing_said = refl
