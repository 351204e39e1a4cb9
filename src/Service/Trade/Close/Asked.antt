-- ===== src/Service/Trade/Close/Asked.antt =====
-- What `CloseTrade` asks of the bridge, and what it leaves.
use fxtrader.Base.{
  inl, inr, String, false, none, List, [], ◌∷◌, ◌≡◌, ◌≢◌, inl, inr, refl, arith, lookup, erase,
  ◌=s=◌, Bool-cases,
}
use fxtrader.Base.Result.{Error, Result, ok, err, panic, driver}
use fxtrader.Outside.{Outside}
use fxtrader.Model.Trade.{Request}
use fxtrader.World.{World, Action, called}
use fxtrader.Service.Trade.Channels.{send_loop, send_to_mt5, with_channel, opened}

lookup-erase : {V : Type 0} (k : String) (d : List (String × V)) → lookup k (erase k d) ≡ none
lookup-erase k [] = refl
lookup-erase k ((j, v) ∷ d) = elim (Bool-cases (j =s= k)) [
  | inl e ↦ rw e (lookup-erase k d)
  | inr e ↦ rw (e, e) (lookup-erase k d)
]

module _ ⦃o : Outside⦄ where
  open o use {F}

  -- A method run with the channel of a key leaves no channel under the key, however it ends.
  pub with_channel-gone :
      {A : Type 0} (key : String) (m : Action A) (w : World)
      → lookup key (with_channel key m w).1.trade_chans ≡ none
  unfolding with_channel
  with_channel-gone key m w = lookup-erase key (m (opened key w)).1.trade_chans

  -- The request goes to one bridge at most: nothing but the calls and the sent requests changes,
  -- and a request is sent exactly if there is no error.
  abbrev pub Sends : Request F → World → Result (Unit {0}) → World → Type 0
  Sends r w (ok _) w' = w' ≡ record w { calls = w'.calls; sent = r ∷ w.sent }
  Sends r w (err _) w' = w' ≡ record w { calls = w'.calls }
  Sends r w panic w' = ⊥

  send_loop-Sends :
      (r : Request F) (e : Error) (cs : List String) (w : World)
      → let (x, w') = send_loop r e cs w in Sends r w x w'
  unfolding send_loop
  send_loop-Sends r e [] w = refl
  send_loop-Sends r e (c ∷ cs) w = ground (arith, send_loop-Sends r driver cs (called w))

  -- The loop over the bridges sends the request to one of them, the first that takes it, and
  -- changes nothing but the counts of calls and sent requests; it returns an error and sends
  -- nothing if there is none, or if none takes it. If some bridge is connected and no call fails,
  -- the request is sent in one call.
  pub send_to_mt5-Sends :
      (r : Request F) (w : World)
      → let (x, w') = send_to_mt5 r w in
        Sends r w x w'
        × (w.connections ≢ []
            → o.fails w.calls ≡ false
            → send_to_mt5 r w ≡ (ok tt, record (called w) { sent = r ∷ w.sent }))
  unfolding send_to_mt5 send_loop
  send_to_mt5-Sends r w =
      (ground (arith, send_loop-Sends r driver w.connections w), λ some_bridge up. ground arith)
