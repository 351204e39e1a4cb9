-- ===== src/Api/Routes/Requests.antt =====
-- What a route gets besides the parameters of its path, its query and its body, and the libraries
-- that the handlers use.
use fxtrader.Base.{ℕ, String, Bool, Option}
use fxtrader.Outside.{Outside}
use fxtrader.World.{World}
use fxtrader.Api.Auth.{Claims}

pub record Libraries : Type 0 where
  -- the referral code that a signup makes of a name and a time
  pub code_of : String → ℕ → String
  -- `strings.Contains`, the text of an error of the database, `regexp.MatchString` with the pattern
  -- of the trading hours, `ObjectID.String`
  pub contains : String → String → Bool
  pub driver_text : String
  pub is_clock : String → Bool
  pub describe : ℕ → String
  -- bcrypt's comparison, the signing and the reading of tokens with the secret of the configuration
  pub matches : String → String → Bool
  pub sign : String → Option String
  pub parse : String → Option Claims
  -- `strings.SplitN(header, " ", 2)` where it gives two parts, and `len`
  pub split : String → Option (String × String)
  pub byte_length : String → ℕ

module _ ⦃o : Outside⦄ where
  pub record Request : Type 0 where
    -- the headers X-Telegram-ID and Authorization, "" where they are missing
    pub telegram_id : String
    pub authorization : String
    pub ip : String
    -- what `uuid.New` gives while it is served
    pub uuid : String
    -- whether the connection can become a websocket
    pub upgrades : Bool
    -- what the other goroutines do while a handler waits
    pub others : World → World
