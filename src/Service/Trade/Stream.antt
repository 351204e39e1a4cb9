-- ===== src/Service/Trade/Stream.antt =====
-- `StreamTrades`, the goroutine that it starts, and `StopStream`.
pub mod Stopped
use fxtrader.Base.{
  ℕ, String, Bool, Option, none, some, List, [], ◌∷◌, insert, lookup, erase, contains, ◌=s=◌, ◌!=s◌,
  ◌&&◌, if◌then◌else◌,
}
use fxtrader.Base.Result.{Result, ok, err, new, wrap}
use fxtrader.Outside.{Outside}
use fxtrader.Model.Trade.{OrderStreamResponse, order_stream_request}
use fxtrader.World.{
  World, Action, Channel, pure, modify, continue, ◌>>=◌, ◌>>◌, raise_if, on_error, present,
}
use fxtrader.Repo.Users.{get_user_by_id}
use fxtrader.Service.Trade.Channels.{send_to_mt5}
use fxtrader.Service.Trade.Respond.{stream_key}

-- `delete(m, key)`
unfoldable pub without : String → List String → List String
without k [] = []
without k (x ∷ xs) = if x =s= k then without k xs else x ∷ without k xs

module _ ⦃o : Outside⦄ where
  open o use {F}

  abbrev pub empty_channel : Channel (OrderStreamResponse F)
  empty_channel = record { buffer = []; is_closed = Bool.false }

  unfoldable pub register_stream : String → World → World
  register_stream key w = record w {
    stream_ctx = key ∷ without key w.stream_ctx;
    order_chans = insert key empty_channel w.order_chans;
  }

  unfoldable pub drop_stream : String → World → World
  drop_stream key w = record w {
    stream_ctx = without key w.stream_ctx;
    order_chans = erase key w.order_chans;
  }

  abbrev pub or_drop : String → Action (Unit {0}) → Action (Unit {0})
  or_drop key m w = elim (m w).0 as (λ _. Result (Unit {0}) × World) [
    | ok a ↦ (ok tt, (m w).1)
    | err e ↦ (err (wrap "failed to send order stream request" e), drop_stream key (m w).1)
    | Result.panic ↦ (Result.panic, (m w).1)
  ]

  unfoldable pub stream_trades : String → String → Action (Unit {0})
  unfolding register_stream drop_stream
  stream_trades user type = do
    raise_if ((type !=s "DEMO") && (type !=s "REAL")) (new "invalid account type")
    id ← present (o.from_hex user) (new "invalid user ID")
    found ← on_error (get_user_by_id id) (λ _. new "user not found")
    u ← present found (new "user not found")
    modify (register_stream (stream_key user type))
    or_drop (stream_key user type) (send_to_mt5 (order_stream_request user type))

  abbrev close_channel : String → Option (Channel (OrderStreamResponse F)) → World → World
  close_channel key none w = w
  close_channel key (some c) w = record w {
    order_chans = insert key (record c { is_closed = Bool.true }) w.order_chans;
  }

  -- The goroutine of a stream, when its context is cancelled or its 24 hours are over: it takes
  -- the channel out of the map only if the context is still there, and closes the channel.
  unfoldable pub reap : String → World → World
  unfolding drop_stream without
  reap key w =
      if contains w.stream_ctx key
      then drop_stream key w
      else close_channel key (lookup key w.order_chans) w

  unfoldable pub stop_stream : String → String → Action (Unit {0})
  unfolding without
  stop_stream user type w =
      let key = stream_key user type in
      if contains w.stream_ctx key
      then (ok tt, record w { stream_ctx = without key w.stream_ctx })
      else (err (new "no active stream found"), w)
