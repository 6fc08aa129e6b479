-- ===== src/Delivery/Fuel.antt =====
-- The fuel of the loops of src/receiver.rs.
use oneshot.Prelude.{
  ℕ, zero, suc, ◌+◌, ◌-◌, ◌≡◌, ◌<◌, refl, subst, Option, none, some, List, [], ◌∷◌, Result, ok, err,
  arith,
}
use oneshot.Program.{
  Program, ret, unreachable, out_of_fuel, atomic, act, take_message, read_message, take_waker, now,
  ◌>>=◌,
}
use oneshot.Machine.Effects.{Lasts, Lasts-pred, pred}
use oneshot.Machine.{System, Reach, exhausted, step}
use oneshot.Machine.Counting.{receiver_effects, receiver_effects-Lasts}
use oneshot.Machine.Endings.{exhausted-out_of_fuel}
use oneshot.Memory.{Model}
use oneshot.Memory.HappensBefore.{receiver}
use oneshot.Delivery.{clients}
use oneshot.Receiver
use oneshot.Errors.{RecvError, RecvTimeoutError}
use oneshot.Receiver.Timed.{checked_add, checked_duration_since}
use oneshot.Receiver.Timed
use oneshot.Client.{
  SenderUse, SenderResult, ReceiverCall, try_recv, recv_ref, is_closed, has_message, recv_timeout,
  recv_deadline, ReceiverEnd, recv, drop, to_option, prepend, call, finish, receiver_client,
}

module _ {T A B : Type 0} where
  pub Lasts-bind :
      (n : ℕ) (p : Program T A) (k : A → Program T B)
      → Lasts n p
      → ((r : A) → Lasts n (k r))
      → Lasts n (p >>= k)
  Lasts-bind n (ret r) k h h' = h' r
  Lasts-bind n unreachable k h h' = tt
  Lasts-bind n out_of_fuel k h h' = h
  Lasts-bind n (atomic op c) k h h' =
      λ v. Lasts-bind (pred n) (c v) k (h v) (λ r. Lasts-pred n (k r) (h' r))
  Lasts-bind n (act a p) k h h' = Lasts-bind (pred n) p k h (λ r. Lasts-pred n (k r) (h' r))
  Lasts-bind n (take_message c) k h h' =
      λ m. Lasts-bind (pred n) (c m) k (h m) (λ r. Lasts-pred n (k r) (h' r))
  Lasts-bind n (read_message c) k h h' =
      λ m. Lasts-bind (pred n) (c m) k (h m) (λ r. Lasts-pred n (k r) (h' r))
  Lasts-bind n (take_waker c) k h h' =
      λ w. Lasts-bind (pred n) (c w) k (h w) (λ r. Lasts-pred n (k r) (h' r))
  Lasts-bind n (now c) k h h' =
      λ t. Lasts-bind (pred n) (c t) k (h t) (λ r. Lasts-pred n (k r) (h' r))

module _ {T A : Type 0} (n : ℕ) (p : Program T A) where
  pub Lasts-pred2 : Lasts n p → Lasts (pred (pred n)) p
  Lasts-pred2 h = Lasts-pred (pred n) p (Lasts-pred n p h)

  Lasts-pred3 : Lasts n p → Lasts (pred (pred (pred n))) p
  Lasts-pred3 h = Lasts-pred (pred (pred n)) p (Lasts-pred2 h)

module _ (T : Type 0) where
  recv_parked-Lasts : (fuel : ℕ) → Lasts {T = T} fuel (Receiver.recv_parked fuel)
  unfolding Receiver.recv_parked
  recv_parked-Lasts zero = refl
  recv_parked-Lasts (suc fuel) =
      ground (arith, Lasts-pred fuel (Receiver.recv_parked {T = T} fuel) (recv_parked-Lasts fuel))

  pub recv-Lasts : (fuel : ℕ) → Lasts {T = T} fuel (Receiver.recv fuel)
  unfolding Receiver.recv Receiver.recv_swapped
  recv-Lasts fuel =
      ground (arith, Lasts-pred3 fuel (Receiver.recv_parked {T = T} fuel) (recv_parked-Lasts fuel))

  pub recv_ref_parked-Lasts : (fuel : ℕ) → Lasts {T = T} fuel (Receiver.recv_ref_parked fuel)
  unfolding Receiver.recv_ref_parked
  recv_ref_parked-Lasts zero = refl
  recv_ref_parked-Lasts (suc fuel) =
      ground (
        arith,
        Lasts-pred fuel (Receiver.recv_ref_parked {T = T} fuel) (recv_ref_parked-Lasts fuel),
      )

  wait_for_unpark-Lasts : (fuel : ℕ) → Lasts {T = T} fuel (Timed.wait_for_unpark fuel)
  unfolding Timed.wait_for_unpark
  wait_for_unpark-Lasts zero = refl
  wait_for_unpark-Lasts (suc fuel) =
      ground
        (arith, Lasts-pred fuel (Timed.wait_for_unpark {T = T} fuel) (wait_for_unpark-Lasts fuel))

  recv_expired-Lasts : (fuel : ℕ) → Lasts {T = T} fuel (Timed.recv_expired fuel)
  unfolding Timed.recv_expired
  recv_expired-Lasts fuel =
      ground
        (arith, Lasts-pred fuel (Timed.wait_for_unpark {T = T} fuel) (wait_for_unpark-Lasts fuel))

  recv_deadline_round-Lasts :
      (n : ℕ) (park_again at_deadline : Program T (Result T RecvTimeoutError)) (left : Option ℕ)
      → Lasts (pred (pred n)) park_again
      → Lasts n at_deadline
      → Lasts n (Timed.recv_deadline_round park_again at_deadline left)
  unfolding Timed.recv_deadline_round
  recv_deadline_round-Lasts n park_again at_deadline (some left) h h' = ground (arith, h)
  recv_deadline_round-Lasts n park_again at_deadline none h h' = h'

  pub recv_deadline_parked-Lasts :
      (fuel deadline : ℕ) → Lasts {T = T} fuel (Timed.recv_deadline_parked fuel deadline)
  unfolding Timed.recv_deadline_parked
  recv_deadline_parked-Lasts zero deadline = refl
  recv_deadline_parked-Lasts (suc fuel) deadline = λ t.
      recv_deadline_round-Lasts fuel _ _ (checked_duration_since deadline t)
        (Lasts-pred2 fuel (Timed.recv_deadline_parked {T = T} fuel deadline)
          (recv_deadline_parked-Lasts fuel deadline))
        (recv_expired-Lasts fuel)

  pub start_recv_ref-Lasts :
      {E : Type 0} (n : ℕ) (e : E) (finish : Program T (Result T E))
      → Lasts n finish
      → Lasts n (Receiver.start_recv_ref e finish)
  unfolding Receiver.start_recv_ref Receiver.start_recv_swapped
  start_recv_ref-Lasts n e finish h = ground (arith, Lasts-pred3 n finish h)

  pub recv_until-Lasts :
      (fuel : ℕ) (deadline : Option ℕ) → Lasts {T = T} fuel (Timed.recv_until fuel deadline)
  unfolding Timed.recv_until Timed.recv_deadline Receiver.recv_ref
  recv_until-Lasts fuel (some deadline) =
      start_recv_ref-Lasts fuel _ (Timed.recv_deadline_parked fuel deadline)
        (recv_deadline_parked-Lasts fuel deadline)
  recv_until-Lasts fuel none =
      Lasts-bind fuel (Receiver.recv_ref fuel) Timed.map_disconnected
        (start_recv_ref-Lasts fuel _ (Receiver.recv_ref_parked fuel) (recv_ref_parked-Lasts fuel))
        map_disconnected-Lasts
    where
      map_disconnected-Lasts : (r : Result T RecvError) → Lasts fuel (Timed.map_disconnected r)
      map_disconnected-Lasts (ok m) = tt
      map_disconnected-Lasts (err e) = tt

  option-Lasts : {E : Type 0} (n : ℕ) (r : Result T E) → Lasts n (to_option r)
  option-Lasts n (ok m) = tt
  option-Lasts n (err e) = tt

  pub call-Lasts : (fuel : ℕ) (c : ReceiverCall) → Lasts {T = T} fuel (call fuel c)
  unfolding call Receiver.try_recv Receiver.is_closed Receiver.has_message Receiver.recv_ref
      Timed.recv_timeout Timed.recv_deadline
  call-Lasts fuel try_recv = ground arith
  call-Lasts fuel recv_ref =
      Lasts-bind fuel (Receiver.recv_ref fuel) to_option
        (start_recv_ref-Lasts fuel _ (Receiver.recv_ref_parked fuel) (recv_ref_parked-Lasts fuel))
        (option-Lasts fuel)
  call-Lasts fuel is_closed = ground arith
  call-Lasts fuel has_message = ground arith
  call-Lasts fuel (recv_timeout last_instant delay) =
      Lasts-bind fuel (Timed.recv_timeout fuel last_instant delay) to_option
        (λ t.
          Lasts-pred fuel (Timed.recv_until {T = T} fuel (checked_add last_instant t delay))
            (recv_until-Lasts fuel (checked_add last_instant t delay)))
        (option-Lasts fuel)
  call-Lasts fuel (recv_deadline deadline) =
      Lasts-bind fuel (Timed.recv_deadline fuel deadline) to_option
        (start_recv_ref-Lasts fuel _ (Timed.recv_deadline_parked fuel deadline)
          (recv_deadline_parked-Lasts fuel deadline))
        (option-Lasts fuel)

  pub finish-Lasts : (fuel : ℕ) (end : ReceiverEnd) → Lasts {T = T} fuel (finish fuel end)
  unfolding finish Receiver.drop
  finish-Lasts fuel recv = Lasts-bind fuel (Receiver.recv fuel) _ (recv-Lasts fuel) last
    where
      last : (r : Result T RecvError) → Lasts {T = T} fuel (to_option r >>= λ o. ret (prepend o []))
      last (ok m) = tt
      last (err e) = tt
  finish-Lasts fuel drop = ground arith

  pub receiver_client-Lasts :
      (fuel : ℕ) (cs : List ReceiverCall) (end : ReceiverEnd)
      → Lasts {T = T} fuel (receiver_client fuel cs end)
  unfolding receiver_client
  receiver_client-Lasts fuel [] end = finish-Lasts fuel end
  receiver_client-Lasts fuel (c ∷ cs) end = Lasts-bind fuel (call fuel c) _ (call-Lasts fuel c) λ o.
      Lasts-bind fuel (receiver_client fuel cs end) _ (receiver_client-Lasts fuel cs end) (λ ns. tt)

rest_of : (e fuel : ℕ) → e < fuel → (k : ℕ) × (fuel ≡ e + suc k)
rest_of e fuel h = (fuel - suc e, omega arith)

suc≢zero : (k : ℕ) → ¬ (suc k ≡ 0)
suc≢zero k e = omega arith

-- A program with that much fuel is not exhausted before it has had as many effects.
pub Lasts-fueled :
    {T A B : Type 0} (model : Model) (fuel : ℕ) (first s : System T A B)
    (reach : Reach model first s)
    → Lasts fuel first.rx
    → receiver_effects model reach < fuel
    → ¬ (step model receiver s.rx s.mem ≡ exhausted)
Lasts-fueled model fuel first s reach h more e =
    let (k, same) = rest_of (receiver_effects model reach) fuel more in
    let lasts = receiver_effects-Lasts model (suc k) reach (subst (λ n. Lasts n first.rx) same h) in
    suc≢zero k (subst (Lasts (suc k)) (exhausted-out_of_fuel model receiver s.mem s.rx e) lasts)

-- While the receiver has had fewer effects than the fuel that its loops were given, a spurious
-- wake-up counted as one, no loop has run out of fuel: the fuel never cuts a shorter run short.
pub clients-fueled :
    {T : Type 0} (model : Model) (clock tests fuel : ℕ) (u : SenderUse T) (cs : List ReceiverCall)
    (end : ReceiverEnd) (s : System T (SenderResult T) (List T))
    → (reach : Reach model (clients clock tests fuel u cs end) s)
    → receiver_effects model reach < fuel
    → ¬ (step model receiver s.rx s.mem ≡ exhausted)
clients-fueled {T} model clock tests fuel u cs end s reach =
    Lasts-fueled model fuel (clients clock tests fuel u cs end) s reach
      (receiver_client-Lasts T fuel cs end)
