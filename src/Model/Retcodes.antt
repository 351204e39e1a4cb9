-- ===== src/Model/Retcodes.antt =====
-- `TradeRetcodes` of backend/internal/constants/trade_retcode.go: the texts of the codes with which
-- a bridge refuses an order. The Persian letters, which run from right to left, are written as
-- escapes.
use fxtrader.Base.{ℕ, String, List, [], ◌∷◌, ◌==◌, ◌=s=◌, if◌then◌else◌}

-- An entry of the table: a code with its texts in English and in Persian.
pub record Retcode : Type 0 where
  pub code : ℕ
  pub en : String
  pub fa : String

abbrev entry : ℕ → String → String → Retcode
entry c e f = record { code = c; en = e; fa = f }

abbrev pub trade_retcodes : List Retcode
trade_retcodes =
    entry 10004 "Requote"
      "\u{642}\u{6cc}\u{645}\u{62a} \u{62c}\u{62f}\u{6cc}\u{62f} \u{627}\u{631}\u{627}\u{626}\u{647} \u{634}\u{62f}"
    ∷ entry 10006 "Request rejected"
        "\u{62f}\u{631}\u{62e}\u{648}\u{627}\u{633}\u{62a} \u{631}\u{62f} \u{634}\u{62f}"
    ∷ entry 10007 "Request canceled by trader"
        "\u{62f}\u{631}\u{62e}\u{648}\u{627}\u{633}\u{62a} \u{62a}\u{648}\u{633}\u{637} \u{645}\u{639}\u{627}\u{645}\u{644}\u{647}\u{200c}\u{6af}\u{631} \u{644}\u{63a}\u{648} \u{634}\u{62f}"
    ∷ entry 10008 "Order placed"
        "\u{633}\u{641}\u{627}\u{631}\u{634} \u{62b}\u{628}\u{62a} \u{634}\u{62f}"
    ∷ entry 10009 "Request completed"
        "\u{62f}\u{631}\u{62e}\u{648}\u{627}\u{633}\u{62a} \u{62a}\u{6a9}\u{645}\u{6cc}\u{644} \u{634}\u{62f}"
    ∷ entry 10010 "Only part of the request was completed"
        "\u{62a}\u{646}\u{647}\u{627} \u{628}\u{62e}\u{634}\u{6cc} \u{627}\u{632} \u{62f}\u{631}\u{62e}\u{648}\u{627}\u{633}\u{62a} \u{62a}\u{6a9}\u{645}\u{6cc}\u{644} \u{634}\u{62f}"
    ∷ entry 10011 "Request processing error"
        "\u{62e}\u{637}\u{627} \u{62f}\u{631} \u{67e}\u{631}\u{62f}\u{627}\u{632}\u{634} \u{62f}\u{631}\u{62e}\u{648}\u{627}\u{633}\u{62a}"
    ∷ entry 10012 "Request canceled by timeout"
        "\u{62f}\u{631}\u{62e}\u{648}\u{627}\u{633}\u{62a} \u{628}\u{647} \u{62f}\u{644}\u{6cc}\u{644} \u{627}\u{62a}\u{645}\u{627}\u{645} \u{632}\u{645}\u{627}\u{646} \u{644}\u{63a}\u{648} \u{634}\u{62f}"
    ∷ entry 10013 "Invalid request"
        "\u{62f}\u{631}\u{62e}\u{648}\u{627}\u{633}\u{62a} \u{646}\u{627}\u{645}\u{639}\u{62a}\u{628}\u{631}"
    ∷ entry 10014 "Invalid volume in the request"
        "\u{62d}\u{62c}\u{645} \u{646}\u{627}\u{645}\u{639}\u{62a}\u{628}\u{631} \u{62f}\u{631} \u{62f}\u{631}\u{62e}\u{648}\u{627}\u{633}\u{62a}"
    ∷ entry 10015 "Invalid price in the request"
        "\u{642}\u{6cc}\u{645}\u{62a} \u{646}\u{627}\u{645}\u{639}\u{62a}\u{628}\u{631} \u{62f}\u{631} \u{62f}\u{631}\u{62e}\u{648}\u{627}\u{633}\u{62a}"
    ∷ entry 10016 "Invalid stops in the request"
        "\u{62d}\u{62f} \u{636}\u{631}\u{631} \u{6cc}\u{627} \u{633}\u{648}\u{62f} \u{646}\u{627}\u{645}\u{639}\u{62a}\u{628}\u{631} \u{62f}\u{631} \u{62f}\u{631}\u{62e}\u{648}\u{627}\u{633}\u{62a}"
    ∷ entry 10017 "Trade is disabled"
        "\u{645}\u{639}\u{627}\u{645}\u{644}\u{647} \u{63a}\u{6cc}\u{631}\u{641}\u{639}\u{627}\u{644} \u{627}\u{633}\u{62a}"
    ∷ entry 10018 "Market is closed"
        "\u{628}\u{627}\u{632}\u{627}\u{631} \u{628}\u{633}\u{62a}\u{647} \u{627}\u{633}\u{62a}"
    ∷ entry 10019 "There is not enough money to complete the request"
        "\u{645}\u{648}\u{62c}\u{648}\u{62f}\u{6cc} \u{6a9}\u{627}\u{641}\u{6cc} \u{628}\u{631}\u{627}\u{6cc} \u{62a}\u{6a9}\u{645}\u{6cc}\u{644} \u{62f}\u{631}\u{62e}\u{648}\u{627}\u{633}\u{62a} \u{648}\u{62c}\u{648}\u{62f} \u{646}\u{62f}\u{627}\u{631}\u{62f}"
    ∷ entry 10020 "Prices changed"
        "\u{642}\u{6cc}\u{645}\u{62a}\u{200c}\u{647}\u{627} \u{62a}\u{63a}\u{6cc}\u{6cc}\u{631} \u{6a9}\u{631}\u{62f}\u{646}\u{62f}"
    ∷ entry 10021 "There are no quotes to process the request"
        "\u{647}\u{6cc}\u{686} \u{642}\u{6cc}\u{645}\u{62a}\u{6cc} \u{628}\u{631}\u{627}\u{6cc} \u{67e}\u{631}\u{62f}\u{627}\u{632}\u{634} \u{62f}\u{631}\u{62e}\u{648}\u{627}\u{633}\u{62a} \u{648}\u{62c}\u{648}\u{62f} \u{646}\u{62f}\u{627}\u{631}\u{62f}"
    ∷ entry 10022 "Invalid order expiration date in the request"
        "\u{62a}\u{627}\u{631}\u{6cc}\u{62e} \u{627}\u{646}\u{642}\u{636}\u{627}\u{6cc} \u{633}\u{641}\u{627}\u{631}\u{634} \u{646}\u{627}\u{645}\u{639}\u{62a}\u{628}\u{631} \u{627}\u{633}\u{62a}"
    ∷ entry 10023 "Order state changed"
        "\u{648}\u{636}\u{639}\u{6cc}\u{62a} \u{633}\u{641}\u{627}\u{631}\u{634} \u{62a}\u{63a}\u{6cc}\u{6cc}\u{631} \u{6a9}\u{631}\u{62f}"
    ∷ entry 10024 "Too frequent requests"
        "\u{62f}\u{631}\u{62e}\u{648}\u{627}\u{633}\u{62a}\u{200c}\u{647}\u{627}\u{6cc} \u{628}\u{6cc}\u{634} \u{627}\u{632} \u{62d}\u{62f}"
    ∷ entry 10025 "No changes in request"
        "\u{62a}\u{63a}\u{6cc}\u{6cc}\u{631}\u{6cc} \u{62f}\u{631} \u{62f}\u{631}\u{62e}\u{648}\u{627}\u{633}\u{62a} \u{648}\u{62c}\u{648}\u{62f} \u{646}\u{62f}\u{627}\u{631}\u{62f}"
    ∷ entry 10026 "Autotrading disabled by server"
        "\u{645}\u{639}\u{627}\u{645}\u{644}\u{627}\u{62a} \u{62e}\u{648}\u{62f}\u{6a9}\u{627}\u{631} \u{62a}\u{648}\u{633}\u{637} \u{633}\u{631}\u{648}\u{631} \u{63a}\u{6cc}\u{631}\u{641}\u{639}\u{627}\u{644} \u{634}\u{62f}"
    ∷ entry 10027 "Autotrading disabled by client terminal"
        "\u{645}\u{639}\u{627}\u{645}\u{644}\u{627}\u{62a} \u{62e}\u{648}\u{62f}\u{6a9}\u{627}\u{631} \u{62a}\u{648}\u{633}\u{637} \u{62a}\u{631}\u{645}\u{6cc}\u{646}\u{627}\u{644} \u{6a9}\u{627}\u{631}\u{628}\u{631} \u{63a}\u{6cc}\u{631}\u{641}\u{639}\u{627}\u{644} \u{634}\u{62f}"
    ∷ entry 10028 "Request locked for processing"
        "\u{62f}\u{631}\u{62e}\u{648}\u{627}\u{633}\u{62a} \u{628}\u{631}\u{627}\u{6cc} \u{67e}\u{631}\u{62f}\u{627}\u{632}\u{634} \u{642}\u{641}\u{644} \u{634}\u{62f}\u{647} \u{627}\u{633}\u{62a}"
    ∷ entry 10029 "Order or position frozen"
        "\u{633}\u{641}\u{627}\u{631}\u{634} \u{6cc}\u{627} \u{645}\u{648}\u{642}\u{639}\u{6cc}\u{62a} \u{645}\u{633}\u{62f}\u{648}\u{62f} \u{634}\u{62f}\u{647} \u{627}\u{633}\u{62a}"
    ∷ entry 10030 "Invalid order filling type"
        "\u{646}\u{648}\u{639} \u{62a}\u{6a9}\u{645}\u{6cc}\u{644} \u{633}\u{641}\u{627}\u{631}\u{634} \u{646}\u{627}\u{645}\u{639}\u{62a}\u{628}\u{631} \u{627}\u{633}\u{62a}"
    ∷ entry 10031 "No connection with the trade server"
        "\u{627}\u{62a}\u{635}\u{627}\u{644} \u{628}\u{647} \u{633}\u{631}\u{648}\u{631} \u{645}\u{639}\u{627}\u{645}\u{644}\u{627}\u{62a}\u{6cc} \u{648}\u{62c}\u{648}\u{62f} \u{646}\u{62f}\u{627}\u{631}\u{62f}"
    ∷ entry 10032 "Operation is allowed only for live accounts"
        "\u{639}\u{645}\u{644}\u{6cc}\u{627}\u{62a} \u{62a}\u{646}\u{647}\u{627} \u{628}\u{631}\u{627}\u{6cc} \u{62d}\u{633}\u{627}\u{628}\u{200c}\u{647}\u{627}\u{6cc} \u{648}\u{627}\u{642}\u{639}\u{6cc} \u{645}\u{62c}\u{627}\u{632} \u{627}\u{633}\u{62a}"
    ∷ entry 10033 "The number of pending orders has reached the limit"
        "\u{62a}\u{639}\u{62f}\u{627}\u{62f} \u{633}\u{641}\u{627}\u{631}\u{634}\u{200c}\u{647}\u{627}\u{6cc} \u{645}\u{639}\u{644}\u{642} \u{628}\u{647} \u{62d}\u{62f} \u{645}\u{62c}\u{627}\u{632} \u{631}\u{633}\u{6cc}\u{62f}\u{647} \u{627}\u{633}\u{62a}"
    ∷ entry 10034 "The volume of orders and positions for the symbol has reached the limit"
        "\u{62d}\u{62c}\u{645} \u{633}\u{641}\u{627}\u{631}\u{634}\u{200c}\u{647}\u{627} \u{648} \u{645}\u{648}\u{642}\u{639}\u{6cc}\u{62a}\u{200c}\u{647}\u{627} \u{628}\u{631}\u{627}\u{6cc} \u{646}\u{645}\u{627}\u{62f} \u{628}\u{647} \u{62d}\u{62f} \u{645}\u{62c}\u{627}\u{632} \u{631}\u{633}\u{6cc}\u{62f}\u{647} \u{627}\u{633}\u{62a}"
    ∷ entry 10035 "Incorrect or prohibited order type"
        "\u{646}\u{648}\u{639} \u{633}\u{641}\u{627}\u{631}\u{634} \u{646}\u{627}\u{62f}\u{631}\u{633}\u{62a} \u{6cc}\u{627} \u{645}\u{645}\u{646}\u{648}\u{639} \u{627}\u{633}\u{62a}"
    ∷ entry 10036 "Position with the specified identifier has already been closed"
        "\u{645}\u{648}\u{642}\u{639}\u{6cc}\u{62a} \u{628}\u{627} \u{634}\u{646}\u{627}\u{633}\u{647} \u{645}\u{634}\u{62e}\u{635} \u{634}\u{62f}\u{647} \u{642}\u{628}\u{644}\u{627}ً \u{628}\u{633}\u{62a}\u{647} \u{634}\u{62f}\u{647} \u{627}\u{633}\u{62a}"
    ∷ entry 10038 "A close volume exceeds the current position volume"
        "\u{62d}\u{62c}\u{645} \u{628}\u{633}\u{62a}\u{647} \u{634}\u{62f}\u{646} \u{628}\u{6cc}\u{634}\u{62a}\u{631} \u{627}\u{632} \u{62d}\u{62c}\u{645} \u{645}\u{648}\u{642}\u{639}\u{6cc}\u{62a} \u{641}\u{639}\u{644}\u{6cc} \u{627}\u{633}\u{62a}"
    ∷ entry 10039 "A close order already exists for this position"
        "\u{6cc}\u{6a9} \u{633}\u{641}\u{627}\u{631}\u{634} \u{628}\u{633}\u{62a}\u{646} \u{628}\u{631}\u{627}\u{6cc} \u{627}\u{6cc}\u{646} \u{645}\u{648}\u{642}\u{639}\u{6cc}\u{62a} \u{627}\u{632} \u{642}\u{628}\u{644} \u{648}\u{62c}\u{648}\u{62f} \u{62f}\u{627}\u{631}\u{62f}"
    ∷ entry 10040 "The number of open positions has reached the limit"
        "\u{62a}\u{639}\u{62f}\u{627}\u{62f} \u{645}\u{648}\u{642}\u{639}\u{6cc}\u{62a}\u{200c}\u{647}\u{627}\u{6cc} \u{628}\u{627}\u{632} \u{628}\u{647} \u{62d}\u{62f} \u{645}\u{62c}\u{627}\u{632} \u{631}\u{633}\u{6cc}\u{62f}\u{647} \u{627}\u{633}\u{62a}"
    ∷ entry 10041 "The pending order activation request is rejected, the order is canceled"
        "\u{62f}\u{631}\u{62e}\u{648}\u{627}\u{633}\u{62a} \u{641}\u{639}\u{627}\u{644}\u{200c}\u{633}\u{627}\u{632}\u{6cc} \u{633}\u{641}\u{627}\u{631}\u{634} \u{645}\u{639}\u{644}\u{642} \u{631}\u{62f} \u{634}\u{62f}، \u{633}\u{641}\u{627}\u{631}\u{634} \u{644}\u{63a}\u{648} \u{634}\u{62f}"
    ∷ entry 10042 "Only long positions are allowed"
        "\u{62a}\u{646}\u{647}\u{627} \u{645}\u{648}\u{642}\u{639}\u{6cc}\u{62a}\u{200c}\u{647}\u{627}\u{6cc} \u{62e}\u{631}\u{6cc}\u{62f} \u{645}\u{62c}\u{627}\u{632} \u{647}\u{633}\u{62a}\u{646}\u{62f}"
    ∷ entry 10043 "Only short positions are allowed"
        "\u{62a}\u{646}\u{647}\u{627} \u{645}\u{648}\u{642}\u{639}\u{6cc}\u{62a}\u{200c}\u{647}\u{627}\u{6cc} \u{641}\u{631}\u{648}\u{634} \u{645}\u{62c}\u{627}\u{632} \u{647}\u{633}\u{62a}\u{646}\u{62f}"
    ∷ entry 10044 "Only position closing is allowed"
        "\u{62a}\u{646}\u{647}\u{627} \u{628}\u{633}\u{62a}\u{646} \u{645}\u{648}\u{642}\u{639}\u{6cc}\u{62a}\u{200c}\u{647}\u{627} \u{645}\u{62c}\u{627}\u{632} \u{627}\u{633}\u{62a}"
    ∷ entry 10045 "Position closing is allowed only by FIFO rule"
        "\u{628}\u{633}\u{62a}\u{646} \u{645}\u{648}\u{642}\u{639}\u{6cc}\u{62a} \u{62a}\u{646}\u{647}\u{627} \u{637}\u{628}\u{642} \u{642}\u{627}\u{646}\u{648}\u{646} FIFO \u{645}\u{62c}\u{627}\u{632} \u{627}\u{633}\u{62a}"
    ∷ entry 10046 "Opposite positions on a single symbol are disabled"
        "\u{645}\u{648}\u{642}\u{639}\u{6cc}\u{62a}\u{200c}\u{647}\u{627}\u{6cc} \u{645}\u{62e}\u{627}\u{644}\u{641} \u{631}\u{648}\u{6cc} \u{6cc}\u{6a9} \u{646}\u{645}\u{627}\u{62f} \u{63a}\u{6cc}\u{631}\u{641}\u{639}\u{627}\u{644} \u{647}\u{633}\u{62a}\u{646}\u{62f}"
    ∷ []

unfoldable pub in_language : String → Retcode → String
in_language l r = if l =s= "en" then r.en else if l =s= "fa" then r.fa else ""

-- `TradeRetcodes[code][language]`: a key that is missing gives the empty text.
unfoldable pub text_in : List Retcode → ℕ → String → String
unfolding in_language
text_in [] c l = ""
text_in (r ∷ rs) c l = let rest = text_in rs c l in if r.code == c then in_language l r else rest

abbrev pub retcode_text : ℕ → String → String
retcode_text c l = text_in trade_retcodes c l
