-- ===== src/Service/Trade/Stream/Stopped.antt =====
-- A stream after `StopStream`.
use fxtrader.Base.{
  lookup-insert, String, true, false, some, List, [], ◌∷◌, ◌≡◌, refl, lookup, contains, Bool-cases,
  inl, inr, ◌=s=◌,
}
use fxtrader.Base.Result.{ok, panic}
use fxtrader.Outside.{Outside}
use fxtrader.Model.Trade.{OrderStreamResponse}
use fxtrader.World.{World, Channel}
use fxtrader.Repo.Others.Logging.{ignored_log}
use fxtrader.Service.Trade.Respond.{stream_key, stream_all, offer, handle_order_stream_response}
use fxtrader.Service.Trade.Stream.{without, reap, stop_stream}

contains-without : (k : String) (xs : List String) → contains (without k xs) k ≡ false
unfolding without
contains-without k [] = refl
contains-without k (x ∷ xs) = elim (Bool-cases (x =s= k)) [
  | inl e ↦ rw e (contains-without k xs)
  | inr e ↦ rw (e, e, contains-without k xs) refl
]

module _ ⦃o : Outside⦄ where
  open o use {F}

  -- A stream is open: its context and its channel are registered and the channel is not closed.
  abbrev pub IsOpen : String → Channel (OrderStreamResponse F) → World → Type 0
  IsOpen key c w =
      (contains w.stream_ctx key ≡ true)
      × (lookup key w.order_chans ≡ some c)
      × (c.is_closed ≡ false)

  -- What `StopStream` and then the stream's own goroutine do.
  stopped : String → String → World → World
  stopped user type w = reap (stream_key user type) (stop_stream user type w).1

  stopped-closed :
      (user type : String) (c : Channel (OrderStreamResponse F)) (w : World)
      → IsOpen (stream_key user type) c w
      → lookup (stream_key user type) (stopped user type w).order_chans
        ≡ some (record c { is_closed = true })
  unfolding stopped reap stop_stream
  stopped-closed user type c w (there, chan, not_yet) =
      let key = stream_key user type in
      rw (there, contains-without key w.stream_ctx, chan)
        (lookup-insert key (record c { is_closed = true }) w.order_chans)

  stream_all_frame :
      (r : OrderStreamResponse F) (w : World) → r.trades ≡ [] → stream_all r r.trades w ≡ (ok tt, w)
  unfolding stream_all
  stream_all_frame r w e = rw e refl

  -- Once a stream that was open is stopped and its goroutine has run, the channel stays in the
  -- map, closed: the next message of that stream that holds no trade panics, in any state with the
  -- same channels.
  pub stop_stream_panics :
      (user type : String) (c : Channel (OrderStreamResponse F)) (w w1 : World)
      (r : OrderStreamResponse F)
      → IsOpen (stream_key user type) c w
      → w1.order_chans ≡ (reap (stream_key user type) (stop_stream user type w).1).order_chans
      → o.to_hex r.user_id ≡ user
      → r.account_type ≡ type
      → r.trades ≡ []
      → (handle_order_stream_response r w1).0 ≡ panic
  unfolding handle_order_stream_response offer stopped
  stop_stream_panics user type c w w1 r is_open same who what no_trade =
      let (ends, frame) =
        ignored_log r.user_id "OrderStreamResponse" "Order stream processed" "" w1 in
      let chan = stopped-closed user type c w is_open in
      rw (stream_all_frame r w1 no_trade, ends, frame, who, what, same, chan) refl
