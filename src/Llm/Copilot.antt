-- ===== src/Llm/Copilot.antt =====
-- apps/ai-engine/app/llm/copilot.py: one exchange with the copilot. The language model is a parameter, with the
-- system prompt in it.
use xbottrader.Api.Requests.{user, ChatMessage, CopilotChatRequest, check_copilot_chat}
use xbottrader.Api.{Response, answer, http_error, unhandled, message}
use xbottrader.Prelude.{
  if◌then◌else◌, Result, raised, ok, ◌>>=◌, ◌>>◌, ℕ, String, Option, none, some, List, ◌∷◌, str_eq,
}
use Prim.Native.String.{◌++◌ as str_append}
mod Tests

pub record CopilotResult : Type 0 where
  pub reply : String
  pub usage : List (String × ℕ)

-- the messages with the context before them, if there is one
abbrev pub turns_of : List ChatMessage → Option String → List ChatMessage
turns_of messages none = messages
turns_of messages (some context) =
    if str_eq context ""
    then messages
    else record { role = user; content = str_append "Context for this conversation:\n" context }
      ∷ messages

module _ (complete : List ChatMessage → String → Result (String × List (String × ℕ)))
    (model : String) where
  -- `Copilot.chat`
  unfoldable pub chat : List ChatMessage → Option String → Result CopilotResult
  chat messages context = do
    said ← complete (turns_of messages context) model
    ok (record { reply = said.0; usage = said.1 })

  abbrev pub reply_of : Result CopilotResult → Response CopilotResult
  reply_of (raised e) = unhandled e
  reply_of (ok r) = answer r

  abbrev pub reply_if : Result (Unit {0}) → Response CopilotResult → Response CopilotResult
  reply_if (raised e) reply = http_error 422 (message e)
  reply_if (ok done) reply = reply

  -- `copilot_chat` of apps/ai-engine/app/api/routes.py, on a body with fields of the right types
  unfoldable pub copilot_chat : CopilotChatRequest → Response CopilotResult
  unfolding chat check_copilot_chat
  copilot_chat body =
      reply_if (check_copilot_chat body) (reply_of (chat body.messages body.context))
