-- ===== src/Service/Telegram.antt =====
-- service/telegram_service.go. The line of backend/cmd/server/main.go that makes the service is a
-- comment, so nothing calls it.
use fxtrader.Base.{String, Bool, Option, ◌=s=◌, ◌==◌}
use fxtrader.Base.Int.{ℤ, pos, negsuc}
use fxtrader.Base.Result.{new, wrap, driver}
use fxtrader.Outside.{Outside}
use fxtrader.Model.{User}
use fxtrader.World.{Action, ◌>>=◌, ◌>>◌, raise_if, on_error, present}
use fxtrader.Repo.Others.{log_action}
use fxtrader.Service.Leaders.{get_user}

abbrev is_zero : ℤ → Bool
is_zero (pos n) = n == 0
is_zero (negsuc n) = Bool.false

module _ ⦃o : Outside⦄ where
  open o use {F}

  -- `send` is `bot.Send` of a message for a chat, `parse_int` is `strconv.ParseInt` in base 10.
  module _ (send : ℤ → String → Action (Unit {0})) (parse_int : String → Option ℤ) where
    abbrev user_of : Option (User F) → Action (User F)
    user_of u = present u (new "user not found")

    unfoldable pub send_message : String → String → Action (Unit {0})
    send_message user message = do
      raise_if (message =s= "") (new "message cannot be empty")
      found ← on_error (get_user user) (λ _. new "user not found")
      u ← user_of found
      chat ← present (parse_int u.telegram_id) (wrap "invalid Telegram ID format" driver)
      raise_if (is_zero chat) (new "user does not have a linked Telegram ID")
      on_error (send chat message) (wrap "failed to send Telegram message")
      log_action 0 "SendTelegramMessage" "Message sent to user" ""

    unfoldable pub send_message_to_chat : ℤ → String → Action (Unit {0})
    send_message_to_chat chat message = do
      raise_if (message =s= "") (new "message cannot be empty")
      raise_if (is_zero chat) (new "invalid chat ID")
      on_error (send chat message) (wrap "failed to send Telegram message")
      log_action 0 "SendTelegramMessageToChat" "Message sent to chat" ""
