-- ===== src/Delivery/FutureReturns.antt =====
-- The receiver's thread runs to its end, for a receiver of src/receiver.rs that is called, then made
-- a future and used as one.
use oneshot.Prelude.{
  ℕ, zero, suc, ◌+◌, ◌*◌, ◌≡◌, ◌<◌, refl, subst, false, List, [], ◌∷◌, Result, arith,
}
use oneshot.Memory.{Model}
use oneshot.Program.{Program, ret, ◌>>◌}
use oneshot.Machine.{System, Reach}
use oneshot.Machine.Effects.{Lasts, Lasts-pred}
use oneshot.Machine.Schedule.{turns, after, after-Reach, Reach-trans}
use oneshot.Machine.Counting.{receiver_effects}
use oneshot.Errors.{RecvError}
use oneshot.Channel.{Poll, ready, pending}
use oneshot.Channel
use oneshot.Atomic.{acquire}
use oneshot.Receiver.Async
use oneshot.Conformance.Standing.{waiting}
use oneshot.Client.{
  SenderUse, SenderResult, sender_client, ReceiverCall, call, FutureCall, polled, tests_closed,
  tests_message, after_poll, future_client, AwaitResult, awaited_client,
}
use oneshot.Client.Sending.{SenderAnswer, Sending, sender_client-Sends}
use oneshot.Client.Calls.{AllPermitted}
use oneshot.Client.Awaiting.{AwaitAnswer, awaited_client-Receives}
use oneshot.Promptness.{AnyEnd, Quick}
use oneshot.Promptness.Futures.{awaited_left, awaited_client-Prompt}
use oneshot.Promptness.System.{Live, Reach-Live, fresh-Live}
use oneshot.Promptness.Conclusion.{runs-Ends}
use oneshot.Delivery.Fuel.{Lasts-bind, call-Lasts, Lasts-fueled}
use oneshot.Delivery.Progress.{Inv-awake}
use oneshot.Delivery.Termination.{length, Live-Quick}
use oneshot.Delivery.Futures.{awaited, awaited-Inv, awaited-IsSound, Awaited, awaited-Awaited}

module _ (T : Type 0) where
  poll_unparking-Lasts : (fuel : ℕ) → Lasts {T = T} fuel (Async.poll_unparking fuel)
  unfolding Async.poll_unparking Async.poll_message
  poll_unparking-Lasts zero = refl
  poll_unparking-Lasts (suc fuel) =
      ground
        (arith, Lasts-pred fuel (Async.poll_unparking {T = T} fuel) (poll_unparking-Lasts fuel))

  poll-Lasts : (fuel : ℕ) (cx : _) → Lasts {T = T} fuel (Async.poll fuel cx)
  unfolding Async.poll Async.poll_message Async.poll_receiving Async.poll_exchange_error
      Channel.write_async_waker
  poll-Lasts fuel cx =
      ground
        (arith, Lasts-pred fuel (Async.poll_unparking {T = T} fuel) (poll_unparking-Lasts fuel))

  drop_unparking-Lasts : (fuel : ℕ) → Lasts {T = T} fuel (Async.drop_unparking fuel)
  unfolding Async.drop_unparking
  drop_unparking-Lasts zero = refl
  drop_unparking-Lasts (suc fuel) =
      ground
        (arith, Lasts-pred fuel (Async.drop_unparking {T = T} fuel) (drop_unparking-Lasts fuel))

  freed-Lasts :
      (fuel : ℕ)
      → Lasts {T = T} fuel (Async.drop_unparking fuel >> (Channel.fence acquire >> Channel.dealloc))
  freed-Lasts fuel =
      Lasts-bind fuel (Async.drop_unparking fuel) _ (drop_unparking-Lasts fuel) (λ r. tt)

  drop-Lasts : (fuel : ℕ) → Lasts {T = T} fuel (Async.drop fuel)
  unfolding Async.drop Async.drop_waiting
  drop-Lasts fuel = Lasts-bind fuel Async.drop_waiting _ (ground arith) λ r. ground (
    arith,
    Lasts-pred fuel
        (Async.drop_unparking {T = T} fuel >> (Channel.fence acquire >> Channel.dealloc))
        (freed-Lasts fuel),
  )

  after_poll-Lasts :
      (fuel : ℕ) (rest : Program T (Poll (Result T RecvError)))
      → Lasts fuel rest
      → (r : Poll (Result T RecvError)) → Lasts fuel (after_poll fuel rest r)
  after_poll-Lasts fuel rest h pending = h
  after_poll-Lasts fuel rest h (ready r) =
      Lasts-bind fuel (Async.drop fuel) _ (drop-Lasts fuel) (λ u. tt)

  future_client-Lasts :
      (fuel : ℕ) (fs : List FutureCall) → Lasts {T = T} fuel (future_client fuel fs)
  unfolding future_client Async.is_closed Async.has_message
  future_client-Lasts fuel [] = tt
  future_client-Lasts fuel (polled cx ∷ fs) =
      Lasts-bind fuel (Async.poll fuel cx) _ (poll-Lasts fuel cx)
        (after_poll-Lasts fuel (future_client fuel fs) (future_client-Lasts fuel fs))
  future_client-Lasts fuel (tests_closed ∷ fs) =
      λ v. Lasts-pred fuel (future_client {T = T} fuel fs) (future_client-Lasts fuel fs)
  future_client-Lasts fuel (tests_message ∷ fs) =
      λ v. Lasts-pred fuel (future_client {T = T} fuel fs) (future_client-Lasts fuel fs)

  awaited_client-Lasts :
      (fuel : ℕ) (cs : List ReceiverCall) (fs : List FutureCall)
      → Lasts {T = T} fuel (awaited_client fuel cs fs)
  unfolding awaited_client
  awaited_client-Lasts fuel [] fs =
      Lasts-bind fuel (future_client fuel fs) _ (future_client-Lasts fuel fs) (λ r. tt)
  awaited_client-Lasts fuel (c ∷ cs) fs =
      Lasts-bind fuel (call fuel c) _ (call-Lasts T fuel c) λ o.
        Lasts-bind fuel (awaited_client fuel cs fs) _ (awaited_client-Lasts fuel cs fs) (λ r. tt)

awaited_left-length :
    (cs : List ReceiverCall) (fs : List FutureCall)
    → awaited_left cs fs ≡ 8 * (length cs + length fs) + 8
awaited_left-length [] [] = refl
awaited_left-length [] (f ∷ fs) = let e = awaited_left-length [] fs in omega arith
awaited_left-length (c ∷ cs) fs = let e = awaited_left-length cs fs in omega arith

awaited-Live :
    {T : Type 0} (model : Model) (m : T) (clock tests fuel : ℕ) (u : SenderUse T)
    (cs : List ReceiverCall) (fs : List FutureCall) {s : System T (SenderResult T) (AwaitResult T)}
    → Sending m u
    → AllPermitted model cs
    → Reach model (awaited clock tests fuel u cs fs) s
    → Live model m (SenderAnswer m) (AwaitAnswer model m waiting) (awaited_left cs fs) s
awaited-Live {T} model m clock tests fuel u cs fs same h r =
    let Q = AwaitAnswer model m waiting in
    Reach-Live model m (SenderAnswer m) Q (awaited_left cs fs) r (
      fresh-Live model m (SenderAnswer m) Q (awaited_left cs fs) clock (sender_client tests u)
        (awaited_client fuel cs fs) (sender_client-Sends m tests false u same)
        (awaited_client-Receives model m fuel cs fs waiting tt h)
        (awaited_client-Prompt T fuel cs fs))

-- When the sender's thread has ended, a receiver that is called, then made a future, polled and
-- tested, is through after at most eight effects for each call, for each use of the future and for
-- its drop, if it is given these turns and its loops have more fuel than its effects so far and
-- these: the loop of `poll` in the state `UNPARKING` spins no longer, and a call that had parked has been woken.
-- Then it has the message, or the channel has it, as the sender was told, and the channel was freed
-- exactly if the future was ready. Calls with a time limit are only covered under `interleaving`.
pub awaited-returns :
    {T : Type 0} (model : Model) (m : T) (clock tests fuel : ℕ) (u : SenderUse T)
    (cs : List ReceiverCall) (fs : List FutureCall) (s : System T (SenderResult T) (AwaitResult T))
    (a : SenderResult T)
    → Sending m u
    → AllPermitted model cs
    → (r : Reach model (awaited clock tests fuel u cs fs) s) → s.tx ≡ ret a
    → receiver_effects model r + (8 * (length cs + length fs) + 8) < fuel
    → (b : AwaitResult T) × ((after model (turns (8 * (length cs + length fs) + 8)) s).rx ≡ ret b)
      × Awaited m a b.is_ready b.messages
          (after model (turns (8 * (length cs + length fs) + 8)) s).mem
awaited-returns {T} model m clock tests fuel u cs fs s a same h r ended enough =
    let n = 8 * (length cs + length fs) + 8 in
    let Q = AwaitAnswer model m waiting in
    let (quick, small) =
      Live-Quick model m Q (awaited_left cs fs) s a
        (awaited-Live model m clock tests fuel u cs fs same h r) ended in
    let (b, tx_ended, rx_ended) =
      runs-Ends model (awaited clock tests fuel u cs fs) a fuel
        (λ v reach. (awaited-IsSound model m clock tests fuel u cs fs v same h reach).1)
        (λ v reach.
          Inv-awake model m Q v a (awaited-Inv model m clock tests fuel u cs fs same h reach))
        (λ v reach.
          Lasts-fueled model fuel (awaited clock tests fuel u cs fs) v reach
            (awaited_client-Lasts T fuel cs fs))
        n s r (subst (λ k. Quick AnyEnd k s.mem.state s.rx) (awaited_left-length cs fs) quick) small
        ended enough in
    (
      b,
      rx_ended,
      awaited-Awaited model m clock tests fuel u cs fs (after model (turns n) s) a b same h
          (Reach-trans model r (after-Reach model (turns n) s)) tx_ended rx_ended,
    )
