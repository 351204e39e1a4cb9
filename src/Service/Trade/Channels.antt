-- ===== src/Service/Trade/Channels.antt =====
-- Requests to the bridges and the channels on which their answers come back: `sendToMT5`, the
-- `Send…Request` methods of socket/socket_server.go, which are one loop, and
-- `tradeResponseChans` with its channels.
use fxtrader.Base.{
  ℕ, suc, ◌==◌, ◌=s=◌, ◌&&◌, String, Option, none, some, List, [], ◌∷◌, insert, lookup, erase,
  if◌then◌else◌,
}
use fxtrader.Base.Result.{Error, ok, err, driver, new}
use fxtrader.Outside.{Outside}
use fxtrader.Model.Trade.{TradeResponse, Request}
use fxtrader.World.{World, Action, called}

module _ ⦃o : Outside⦄ where
  open o use {F, fails}

  -- The loop over the clients: the first that takes the message ends it.
  unfoldable pub send_loop : Request F → Error → List String → Action (Unit {0})
  send_loop r last [] w = (err last, w)
  send_loop r last (c ∷ cs) w =
      let rest = send_loop r driver cs (called w) in
      if fails w.calls then rest else (ok tt, record (called w) { sent = r ∷ w.sent })

  unfoldable pub send_to_mt5 : Request F → Action (Unit {0})
  unfolding send_loop
  send_to_mt5 r w = elim w.connections [
    | [] ↦ (err (new "no active MT5 connections available"), w)
    | c ∷ cs ↦ send_loop r driver (c ∷ cs) w
  ]

  -- The buffers after that of one channel is set.
  abbrev pub refilled :
      String
      → ℕ
      → List (TradeResponse F)
      → (String → ℕ → List (TradeResponse F))
      → String
      → ℕ
      → List (TradeResponse F)
  refilled key c buffer channels k n = if (k =s= key) && (n == c) then buffer else channels k n

  -- A new channel is made and registered under the key, over one that may be there.
  abbrev pub opened : String → World → World
  opened key w = record w {
    trade_chans = insert key w.next_channel w.trade_chans;
    channels = refilled key w.next_channel [] w.channels;
    next_channel = suc w.next_channel;
  }

  abbrev pub closed : String → World → World
  closed key w = record w { trade_chans = erase key w.trade_chans }

  -- The channel of a trade is registered, and the deferred function takes it away, however the
  -- method ends.
  unfoldable pub with_channel : {A : Type 0} → String → Action A → Action A
  with_channel key m w = let (r, w') = m (opened key w) in (r, closed key w')

  abbrev pub taken : String → ℕ → List (TradeResponse F) → World → Option (TradeResponse F) × World
  taken key c [] w = (none, w)
  taken key c (r ∷ rest) w = (some r, record w { channels = refilled key c rest w.channels })

  abbrev pub received : String → Option ℕ → World → Option (TradeResponse F) × World
  received key (some c) w = taken key c (w.channels key c) w
  received key none w = (none, w)

  -- The `select` between the method's own channel and the timer, after `others` have run: the timer
  -- fires if the channel is still empty. The method's own channel is the one that it has
  -- registered, which is under the key when the wait begins, whatever is there when it ends.
  unfoldable pub await_response : String → (World → World) → Action (Option (TradeResponse F))
  await_response key others w =
      let (r, w') = received key (lookup key w.trade_chans) (others w) in (ok r, w')

  abbrev offered : String → TradeResponse F → ℕ → List (TradeResponse F) → World → World
  offered key r c [] w = record w { channels = refilled key c (r ∷ []) w.channels }
  offered key r c (x ∷ xs) w = w

  abbrev posted : String → TradeResponse F → Option ℕ → World → World
  posted key r (some c) w = offered key r c (w.channels key c) w
  posted key r none w = w

  -- The non-blocking send on the channel of capacity one that is registered now.
  unfoldable pub post_response : String → TradeResponse F → Action (Unit {0})
  post_response key r w = (ok tt, posted key r (lookup key w.trade_chans) w)
